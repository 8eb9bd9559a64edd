-- ===== src/AsyncGrpc/Listening/Shares.antt =====
-- The executors of a server share its work evenly (async_grpc/async_grpc/server.hpp).
use async_sandbox.Prelude.{
  ℕ, suc, ◌+◌, ◌*◌, ◌%◌, ◌≤◌, ◌<◌, ◌≡◌, refl, sym, ap, subst, ◌∙◌, true, some, List, [], ◌∷◌, ◌++◌,
  map, ◌>>=◌, arith, length, length-append, get_elem?, Option-cases, inl, inr,
}
use async_sandbox.AsyncLib.Machine.{ExecutorId}
use async_sandbox.AsyncGrpc.RoundRobin.{size_t_mod}
use async_sandbox.AsyncGrpc.Listening.{
  Listener, Server, ServerOptions, set, start_service, start_services, built, new_server,
  after_listen, on_event, serve,
}
use async_sandbox.AsyncGrpc.Listening.Selection.{counter, select_lem}
use async_sandbox.AsyncGrpc.Listening.Starts.{all_methods, methods_at, accepted, new_server-serve}
use mathlib.Core.Option.{some-injective}
use async_sandbox.AsyncGrpc.Listening.Tally.{tally_even}
use async_sandbox.AsyncGrpc.Listening.Loads.{
  load, IsCounted, start_listening-IsCounted, listeners_load-set, handlers_load-append,
}

module _ {R : Type 0} where
  start_service-IsCounted :
      (ms : List R) (n c : ℕ) (s : Server R)
      → IsCounted n c s
      → 0 < n
      → c + 2 * length ms < size_t_mod
      → (s' : Server R) × (start_service s ms ≡ some s') × IsCounted n (c + 2 * length ms) s'
  unfolding start_service
  start_service-IsCounted [] n c s h lt l =
      (s, refl, subst (λ (k : ℕ). IsCounted n k s) (omega arith) h)
  start_service-IsCounted (m ∷ ms) n c s h lt l =
      let (s₁, q₁, h₁) = start_listening-IsCounted n c s m h lt (omega arith) in
      let (s₂, q₂, h₂) = start_service-IsCounted ms n (suc (suc c)) s₁ h₁ lt (omega arith) in
      (s₂, rw (◌>>=◌, q₁) q₂, subst (λ (k : ℕ). IsCounted n k s₂) (omega arith) h₂)

  start_services-IsCounted :
      (ss : List (List R)) (n c : ℕ) (s : Server R)
      → IsCounted n c s
      → 0 < n
      → c + 2 * length (all_methods ss) < size_t_mod
      → (s' : Server R) × (start_services s ss ≡ some s')
        × IsCounted n (c + 2 * length (all_methods ss)) s'
  unfolding start_services
  start_services-IsCounted [] n c s h lt l =
      (s, refl, subst (λ (k : ℕ). IsCounted n k s) (omega arith) h)
  start_services-IsCounted (ms ∷ ss) n c s h lt l =
      let both = length-append ms (all_methods ss) in
      let (s₁, q₁, h₁) = start_service-IsCounted ms n c s h lt (omega (arith, both)) in
      let (s₂, q₂, h₂) =
        start_services-IsCounted ss n (c + 2 * length ms) s₁ h₁ lt (omega (arith, both)) in
      (s₂, rw (◌>>=◌, q₁) q₂, subst (λ (k : ℕ). IsCounted n k s₂) (omega (arith, both)) h₂)

  accept-IsCounted :
      (n c i : ℕ) (s : Server R) (l : Listener R) (e : ExecutorId)
      → IsCounted n c s
      → 0 < n
      → c + 1 < size_t_mod
      → get_elem? s.listeners i ≡ some l
      → l.listens_on ≡ some e
      → (s' : Server R) × (after_listen s i l e true ≡ some s') × IsCounted n (suc c) s'
  unfolding after_listen
  accept-IsCounted n c i s l e h lt b g x = (
    record s₀ { executors = counter n (c + 1); listeners = set s.listeners i l' },
    rw (◌>>=◌, select_lem s₀ n c h.selections lt b) refl,
    record {
      selections = ap (counter n) (omega arith);
      loads = λ j. ground (
        arith,
        h.loads j,
        listeners_load-set j s.listeners i l' g,
        handlers_load-append j s.handlers ((l.method, e) ∷ []),
        x,
      );
    },
  )
    where
      s₀ : Server R
      s₀ = record s { handlers = s.handlers ++ (l.method, e) ∷ [] }

      l' : Listener R
      l' = record l { listens_on = some (c % n) }

  on_event-IsCounted :
      (n c i : ℕ) (s : Server R) {s' : Server R}
      → IsCounted n c s
      → 0 < n
      → c + 1 < size_t_mod
      → on_event s (accepted i) ≡ some s'
      → IsCounted n (suc c) s'
  unfolding on_event
  on_event-IsCounted n c i s {s'} h lt b q = elim (Option-cases (get_elem? s.listeners i)) [
    | inl g ↦ cc (rw (g, ◌>>=◌) at q)
    | inr (l, g) ↦ elim (Option-cases l.listens_on) [
      | inl x ↦ cc (rw (g, x, ◌>>=◌) at q)
      | inr (e, x) ↦
          let (s₁, p, h₁) = accept-IsCounted n c i s l e h lt b g x in
          let same : s₁ ≡ s' = some-injective _ _ (sym p ∙ (rw (g, x, ◌>>=◌) at q)) in
          subst (λ (u : Server R). IsCounted n (suc c) u) same h₁
    ]
  ]

  serve-IsCounted :
      (is : List ℕ) (n c : ℕ) (s : Server R) {s' : Server R}
      → IsCounted n c s
      → 0 < n
      → c + length is < size_t_mod
      → serve s (map accepted is) ≡ some s'
      → IsCounted n (c + length is) s'
  unfolding serve
  serve-IsCounted [] n c s {s'} h lt b q =
      subst (λ (u : Server R). IsCounted n (c + 0) u) (some-injective _ _ q)
        (subst (λ (k : ℕ). IsCounted n k s) (omega arith) h)
  serve-IsCounted (i ∷ is) n c s {s'} h lt b q = elim (Option-cases (on_event s (accepted i))) [
    | inl g ↦ cc (rw (g, ◌>>=◌) at q)
    | inr (s₁, g) ↦
        let h₁ = on_event-IsCounted n c i s h lt (omega arith) g in
        subst (λ (k : ℕ). IsCounted n k s') (omega arith)
          (serve-IsCounted is n (suc c) s₁ h₁ lt (omega arith) (rw (g, ◌>>=◌) at q))
  ]

  started :
      (options : ServerOptions R) {s : Server R}
      → new_server options ≡ some s
      → start_services (built options.executor_count) options.services ≡ some s
  unfolding new_server
  started options q = q

  built-IsCounted : (n : ℕ) → IsCounted n 0 (built {R = R} n)
  built-IsCounted n = record { selections = refl; loads = λ i. omega arith }

  -- The executors of a server share its work evenly until its shutdown: after any calls of its methods,
  -- as long as the counter does not wrap, the loops spawned on an executor, the loops that listen with
  -- it and the handlers spawned on it are together at most one more than those of another executor.
  pub load_even :
      (options : ServerOptions R) (is : List ℕ) (called : List R) (i j : ExecutorId)
      → i < options.executor_count
      → j < options.executor_count
      → methods_at (all_methods options.services) is ≡ some called
      → 2 * length (all_methods options.services) + length is < size_t_mod
      → (s : Server R) × (s' : Server R) × (new_server options ≡ some s)
        × (serve s (map accepted is) ≡ some s')
        × (load i s' ≤ load j s' + 1)
  load_even options is called i j li lj h b =
      let n = options.executor_count in
      let (s, s', q, q', v) = new_server-serve options is called (omega arith) h in
      let (s₁, p, h₁) =
        start_services-IsCounted options.services n 0 (built n) (built-IsCounted n) (omega arith)
          (omega arith) in
      let same : s₁ ≡ s = some-injective _ _ (sym p ∙ started options q) in
      let h' =
        serve-IsCounted is n (0 + 2 * length (all_methods options.services)) s
          (subst (λ (u : Server R). IsCounted n (0 + 2 * length (all_methods options.services)) u)
            same h₁)
          (omega arith) (omega arith) q' in
      (
        s,
        s',
        q,
        q',
        omega (
          arith,
          h'.loads i,
          h'.loads j,
          tally_even n i j (0 + 2 * length (all_methods options.services) + length is) li lj,
        ),
      )
