-- ===== src/AsyncGrpc/Listening/Starts.antt =====
-- The start of a server (`Server::Server` of async_grpc/async_grpc/server.cpp), and its calls up to the
-- shutdown.
use mathlib.Core.List.{map-append, append-nil, append_assoc}
use mathlib.Core.Option.{some-injective}
use async_sandbox.Prelude.{
  ℕ, zero, suc, ◌<◌, ◌≡◌, refl, sym, ap, ◌∙◌, Bool, true, Option, none, some, List, [], ◌∷◌, ◌++◌,
  map, ◌>>=◌, arith, get_elem?, Option-cases, inl, inr,
}
use async_sandbox.AsyncGrpc.Listening.{
  Listener, Server, ServerOptions, executors_from, start_listening, start_service, start_services,
  built, new_server, serve,
}
use async_sandbox.AsyncGrpc.Listening.Selection.{select-some}
use async_sandbox.AsyncGrpc.Listening.Refinement.{
  View, view, loop_of, seen, spec_events, serve-refines,
}

abbrev pub all_methods : {R : Type 0} → List (List R) → List R
all_methods [] = []
all_methods (ms ∷ rest) = ms ++ all_methods rest

-- A call for the loop `i`.
abbrev pub accepted : ℕ → ℕ × Bool
accepted i = (i, true)

module _ {R : Type 0} where
  abbrev pub listens : R → R × Bool
  listens m = (m, true)

  start_listening-view :
      (s : Server R) (n : ℕ) (m : R)
      → s.executors.executors ≡ executors_from 0 n
      → 0 < n
      → (s' : Server R) × (start_listening s m ≡ some s')
        × (s'.executors.executors ≡ executors_from 0 n)
        × (view s' ≡ record (view s) { loops = (view s).loops ++ listens m ∷ [] })
  unfolding start_listening
  start_listening-view s n m h lt =
      let (loop, next, q, h') = select-some s n h lt in
      let s₁ = record s { executors = next } in
      let (call, next₂, q₂, h₂) = select-some s₁ n h' lt in
      let l : Listener R = record { method = m; spawned_on = loop; listens_on = some call } in
      (
        record s₁ { executors = next₂; listeners = s.listeners ++ l ∷ [] },
        rw (◌>>=◌, q, q₂) refl,
        h₂,
        ap (λ (ls : List (R × Bool)). record (view s) { loops = ls })
            (map-append loop_of s.listeners (l ∷ [])),
      )

  start_service-view :
      (ms : List R) (s : Server R) (n : ℕ)
      → s.executors.executors ≡ executors_from 0 n
      → 0 < n
      → (s' : Server R) × (start_service s ms ≡ some s')
        × (s'.executors.executors ≡ executors_from 0 n)
        × (view s' ≡ record (view s) { loops = (view s).loops ++ map listens ms })
  unfolding start_service
  start_service-view [] s n h lt = (
    s,
    refl,
    h,
    ap (λ (ls : List (R × Bool)). record (view s) { loops = ls }) (sym (append-nil (view s).loops)),
  )
  start_service-view (m ∷ ms) s n h lt =
      let (s₁, q₁, h₁, v₁) = start_listening-view s n m h lt in
      let (s₂, q₂, h₂, v₂) = start_service-view ms s₁ n h₁ lt in
      (
        s₂,
        rw (◌>>=◌, q₁) q₂,
        h₂,
        v₂
            ∙ ap (λ (v : View R). record v { loops = v.loops ++ map listens ms }) v₁
            ∙ ap (λ (ls : List (R × Bool)). record (view s) { loops = ls })
                (append_assoc (view s).loops (listens m ∷ []) (map listens ms)),
      )

  start_services-view :
      (ss : List (List R)) (s : Server R) (n : ℕ)
      → s.executors.executors ≡ executors_from 0 n
      → 0 < n
      → (s' : Server R) × (start_services s ss ≡ some s')
        × (s'.executors.executors ≡ executors_from 0 n)
        × (view s' ≡ record (view s) { loops = (view s).loops ++ map listens (all_methods ss) })
  unfolding start_services
  start_services-view [] s n h lt = (
    s,
    refl,
    h,
    ap (λ (ls : List (R × Bool)). record (view s) { loops = ls }) (sym (append-nil (view s).loops)),
  )
  start_services-view (ms ∷ ss) s n h lt =
      let (s₁, q₁, h₁, v₁) = start_service-view ms s n h lt in
      let (s₂, q₂, h₂, v₂) = start_services-view ss s₁ n h₁ lt in
      (
        s₂,
        rw (◌>>=◌, q₁) q₂,
        h₂,
        v₂
            ∙ ap (λ (v : View R). record v { loops = v.loops ++ map listens (all_methods ss) }) v₁
            ∙ ap (λ (ls : List (R × Bool)). record (view s) { loops = ls })
                (append_assoc (view s).loops (map listens ms) (map listens (all_methods ss))
                  ∙ ap (λ (ls : List (R × Bool)). (view s).loops ++ ls)
                      (sym (map-append listens ms (all_methods ss)))),
      )

  -- A server that is built with executors listens for every method of every service, in their order,
  -- and has handed on no call.
  pub new_server-view :
      (options : ServerOptions R)
      → 0 < options.executor_count
      → (s : Server R) × (new_server options ≡ some s)
        × (s.executors.executors ≡ executors_from 0 options.executor_count)
        × (view s ≡ record { loops = map listens (all_methods options.services); calls = [] })
  unfolding new_server
  new_server-view options lt =
      start_services-view options.services (built options.executor_count) options.executor_count
        refl lt

  -- The calls of these methods, by the numbers of their loops; `none` if there is no such loop.
  abbrev pub methods_at : List R → List ℕ → Option (List R)
  methods_at ms [] = some []
  methods_at ms (i ∷ is) = get_elem? ms i >>= λ m. methods_at ms is >>= λ rest. some (m ∷ rest)

  get-listens :
      (ms : List R) (i : ℕ) {m : R}
      → get_elem? ms i ≡ some m
      → get_elem? (map listens ms) i ≡ some (listens m)
  get-listens [] i h = cc
  get-listens (x ∷ ms) zero h = ground arith
  get-listens (x ∷ ms) (suc i) h = get-listens ms i h

  spec_accepted :
      (ms : List R) (is : List ℕ) (before : List R) {called : List R}
      → methods_at ms is ≡ some called
      → spec_events (record { loops = map listens ms; calls = before }) (map accepted is)
        ≡ some (record { loops = map listens ms; calls = before ++ called })
  spec_accepted ms [] before h =
      ap (λ (cs : List R). some (record { loops = map listens ms; calls = cs }))
        (sym (append-nil before) ∙ ap (λ (cs : List R). before ++ cs) (some-injective _ _ h))
  spec_accepted ms (i ∷ is) before {called} h = elim (Option-cases (get_elem? ms i)) [
    | inl g ↦ cc (rw (g, ◌>>=◌) at h)
    | inr (m, g) ↦ elim (Option-cases (methods_at ms is)) [
      | inl k ↦ cc (rw (g, k, ◌>>=◌) at h)
      | inr (rest, k) ↦
          let all : m ∷ rest ≡ called = some-injective _ _ (rw (g, k, ◌>>=◌) at h) in
          rw (get-listens ms i g, ← all)
            (spec_accepted ms is (before ++ m ∷ []) k
              ∙ ap (λ (cs : List R). some (record { loops = map listens ms; calls = cs }))
                  (append_assoc before (m ∷ []) rest))
    ]
  ]

  seen-some :
      (o : Option (Server R)) {v : View R}
      → seen o ≡ some v
      → (s : Server R) × (o ≡ some s) × (view s ≡ v)
  seen-some none h = cc
  seen-some (some s) h = (s, refl, some-injective _ _ h)

  -- Until its shutdown a server with executors accepts any calls of its methods: each is handed to a
  -- handler of its method, in the order of the calls, and every method is listened for afterwards.
  pub new_server-serve :
      (options : ServerOptions R) (is : List ℕ) (called : List R)
      → 0 < options.executor_count
      → methods_at (all_methods options.services) is ≡ some called
      → (s : Server R) × (s' : Server R) × (new_server options ≡ some s)
        × (serve s (map accepted is) ≡ some s')
        × (view s' ≡ record { loops = map listens (all_methods options.services); calls = called })
  new_server-serve options is called lt h =
      let (s, q, x, v) = new_server-view options lt in
      let (s', q', v') = seen-some (serve s (map accepted is)) (
        serve-refines (map accepted is) s options.executor_count x lt
        ∙ ap (λ (u : View R). spec_events u (map accepted is)) v
        ∙ spec_accepted (all_methods options.services) is [] h) in
      (s, s', q, q', v')
