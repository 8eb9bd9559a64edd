-- ===== src/AsyncGrpc/Listening/Refinement.antt =====
-- The server of async_grpc/async_grpc/server.hpp as its clients see it: which methods are listened
-- for, and which calls have been handed to a handler.
use mathlib.Core.List.{map-append}
use mathlib.Core.Path.{ap₂}
use async_sandbox.Prelude.{
  ℕ, zero, suc, ◌<◌, ◌≡◌, refl, sym, ap, ◌∙◌, ◌⊎◌, Bool, true, false, Option, none, some, List, [],
  ◌∷◌, ◌++◌, map, ◌>>=◌, arith, get_elem?, Option-cases, inl, inr,
}
use async_sandbox.AsyncLib.Machine.{ExecutorId}
use async_sandbox.AsyncGrpc.Listening.{
  Listener, Server, executors_from, set, after_listen, on_event, serve,
}
use async_sandbox.AsyncGrpc.Listening.Selection.{select-some}

-- The loops with their methods, and whether each still listens; the methods of the calls so far.
pub record View (R : Type 0) : Type 0 where
  pub loops : List (R × Bool)
  pub calls : List R

abbrev pub is_some : Option ExecutorId → Bool
is_some none = false
is_some (some e) = true

module _ {R : Type 0} where
  abbrev pub loop_of : Listener R → R × Bool
  loop_of l = (l.method, is_some l.listens_on)

  abbrev pub method_of : R × ExecutorId → R
  method_of h = h.0

  abbrev pub view : Server R → View R
  view s = record { loops = map loop_of s.listeners; calls = map method_of s.handlers }

  -- A call is handed on while its loop listens, and the loop goes on listening; at a shutdown the
  -- loop ends. A loop that has ended gets no event.
  abbrev pub spec_loop : View R → ℕ → R × Bool → Bool → Option (View R)
  spec_loop v i (m, false) ok = none
  spec_loop v i (m, true) true = some (record v { calls = v.calls ++ m ∷ [] })
  spec_loop v i (m, true) false = some (record v { loops = set v.loops i (m, false) })

  abbrev pub spec_event : View R → ℕ × Bool → Option (View R)
  spec_event v (i, ok) = get_elem? v.loops i >>= λ l. spec_loop v i l ok

  abbrev pub spec_events : View R → List (ℕ × Bool) → Option (View R)
  spec_events v [] = some v
  spec_events v (e ∷ es) = spec_event v e >>= λ v'. spec_events v' es

  abbrev pub seen : Option (Server R) → Option (View R)
  seen none = none
  seen (some s) = some (view s)

  get-map :
      (ls : List (Listener R)) (i : ℕ) {l : Listener R}
      → get_elem? ls i ≡ some l
      → get_elem? (map loop_of ls) i ≡ some (loop_of l)
  get-map [] i h = cc
  get-map (x ∷ ls) zero h = ground arith
  get-map (x ∷ ls) (suc i) h = get-map ls i h

  get-map-none :
      (ls : List (Listener R)) (i : ℕ) → get_elem? ls i ≡ none → get_elem? (map loop_of ls) i ≡ none
  get-map-none [] i h = refl
  get-map-none (x ∷ ls) zero h = cc
  get-map-none (x ∷ ls) (suc i) h = get-map-none ls i h

  map-set :
      (ls : List (Listener R)) (i : ℕ) (l : Listener R)
      → map loop_of (set ls i l) ≡ set (map loop_of ls) i (loop_of l)
  map-set [] i l = refl
  map-set (x ∷ ls) zero l = refl
  map-set (x ∷ ls) (suc i) l = ap (λ (k : List (R × Bool)). loop_of x ∷ k) (map-set ls i l)

  set_same :
      (ls : List (R × Bool)) (i : ℕ) {l : R × Bool} → get_elem? ls i ≡ some l → set ls i l ≡ ls
  set_same [] i h = refl
  set_same (x ∷ ls) zero h = ground arith
  set_same (x ∷ ls) (suc i) h = ap (λ (k : List (R × Bool)). x ∷ k) (set_same ls i h)

  -- What the loop of one listener does with an event, seen from outside.
  after_listen-view :
      (s : Server R) (n i : ℕ) (l : Listener R) (e : ExecutorId) (ok : Bool)
      → s.executors.executors ≡ executors_from 0 n
      → 0 < n
      → get_elem? s.listeners i ≡ some l
      → l.listens_on ≡ some e
      → (s' : Server R) × (after_listen s i l e ok ≡ some s')
        × (spec_loop (view s) i (loop_of l) ok ≡ some (view s'))
        × (s'.executors.executors ≡ executors_from 0 n)
  unfolding after_listen
  after_listen-view s n i l e false h lt g x = (
    _,
    refl,
    rw x (
        ap
          (λ (ls : List (R × Bool)). some (record { loops = ls; calls = map method_of s.handlers }))
          (sym (map-set s.listeners i (record l { listens_on = none })))),
    h,
  )
  after_listen-view s n i l e true h lt g x =
      let s₀ = record s { handlers = s.handlers ++ (l.method, e) ∷ [] } in
      let (d, next, q, h') = select-some s₀ n h lt in
      let same : map loop_of (set s.listeners i (record l { listens_on = some d }))
          ≡ map loop_of s.listeners =
        map-set s.listeners i (record l { listens_on = some d })
        ∙ set_same (map loop_of s.listeners) i (
            get-map s.listeners i g
            ∙ ap (λ (o : Option ExecutorId). some (l.method, is_some o)) x) in
      (
        record s₀ {
          executors = next;
          listeners = set s.listeners i (record l { listens_on = some d });
        },
        rw (◌>>=◌, q) refl,
        rw x (
            ap₂ (λ (ls : List (R × Bool)) (ms : List R). some (record { loops = ls; calls = ms }))
              (sym same) (sym (map-append method_of s.handlers ((l.method, e) ∷ [])))),
        h',
      )

  on_event-view :
      (s : Server R) (n : ℕ) (e : ℕ × Bool)
      → s.executors.executors ≡ executors_from 0 n
      → 0 < n
      → ((on_event s e ≡ none) × (spec_event (view s) e ≡ none))
        ⊎ ((s' : Server R) × (on_event s e ≡ some s')
            × (spec_event (view s) e ≡ some (view s'))
            × (s'.executors.executors ≡ executors_from 0 n))
  unfolding on_event
  on_event-view s n (i, ok) h lt = elim (Option-cases (get_elem? s.listeners i)) [
    | inl g ↦ inl (rw (◌>>=◌, g) refl, rw (get-map-none s.listeners i g) refl)
    | inr (l, g) ↦ elim (Option-cases l.listens_on) [
      | inl x ↦ inl (rw (◌>>=◌, g, x) refl, rw (get-map s.listeners i g, x) refl)
      | inr (e, x) ↦
          let (s', q, p, h') = after_listen-view s n i l e ok h lt g x in
          inr (s', rw (◌>>=◌, g, x) q, rw (get-map s.listeners i g) p, h')
    ]
  ]

  -- On any events, a server whose executors are numbered from 0 on, at least one, does what the
  -- abstract server does: it fails at the same events, listens for the same methods in the end, and
  -- has handed on the same calls in the same order.
  pub serve-refines :
      (es : List (ℕ × Bool)) (s : Server R) (n : ℕ)
      → s.executors.executors ≡ executors_from 0 n
      → 0 < n
      → seen (serve s es) ≡ spec_events (view s) es
  unfolding serve
  serve-refines [] s n h lt = refl
  serve-refines (e ∷ es) s n h lt = elim (on_event-view s n e h lt) [
    | inl (q, p) ↦ rw (q, p) refl
    | inr (s', q, p, h') ↦ rw (q, p) (serve-refines es s' n h' lt)
  ]
