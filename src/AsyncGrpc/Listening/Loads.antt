-- ===== src/AsyncGrpc/Listening/Loads.antt =====
-- How the executors of a server share its loops and handlers (async_grpc/async_grpc/server.hpp).
use async_sandbox.Prelude.{
  ℕ, zero, suc, ◌+◌, ◌%◌, ◌<◌, ◌≡◌, refl, ap, Option, none, some, List, [], ◌∷◌, ◌++◌, ◌>>=◌, arith,
  get_elem?,
}
use async_sandbox.AsyncLib.Machine.{ExecutorId}
use async_sandbox.AsyncGrpc.RoundRobin.{size_t_mod}
use async_sandbox.AsyncGrpc.Listening.{Listener, Server, set, start_listening}
use async_sandbox.AsyncGrpc.Listening.Selection.{counter, select_lem}
use async_sandbox.AsyncGrpc.Listening.Tally.{hit, tally}

abbrev pub waiting_hit : ExecutorId → Option ExecutorId → ℕ
waiting_hit i none = 0
waiting_hit i (some e) = hit i e

module _ {R : Type 0} where
  abbrev pub listener_load : ExecutorId → Listener R → ℕ
  listener_load i l = hit i l.spawned_on + waiting_hit i l.listens_on

  abbrev pub listeners_load : ExecutorId → List (Listener R) → ℕ
  listeners_load i [] = 0
  listeners_load i (l ∷ ls) = listener_load i l + listeners_load i ls

  abbrev pub handlers_load : ExecutorId → List (R × ExecutorId) → ℕ
  handlers_load i [] = 0
  handlers_load i ((m, e) ∷ hs) = hit i e + handlers_load i hs

  -- The loops spawned on the executor, the loops that listen with it, and the handlers spawned on it.
  abbrev pub load : ExecutorId → Server R → ℕ
  load i s = listeners_load i s.listeners + handlers_load i s.handlers

  listeners_load-append :
      (i : ExecutorId) (ls ks : List (Listener R))
      → listeners_load i (ls ++ ks) ≡ listeners_load i ls + listeners_load i ks
  listeners_load-append i [] ks = omega arith
  listeners_load-append i (l ∷ ls) ks = omega (arith, listeners_load-append i ls ks)

  pub handlers_load-append :
      (i : ExecutorId) (hs ks : List (R × ExecutorId))
      → handlers_load i (hs ++ ks) ≡ handlers_load i hs + handlers_load i ks
  handlers_load-append i [] ks = omega arith
  handlers_load-append i ((m, e) ∷ hs) ks = omega (arith, handlers_load-append i hs ks)

  pub listeners_load-set :
      (i : ExecutorId) (ls : List (Listener R)) (k : ℕ) (x : Listener R) {l : Listener R}
      → get_elem? ls k ≡ some l
      → listeners_load i (set ls k x) + listener_load i l ≡ listeners_load i ls + listener_load i x
  listeners_load-set i [] k x h = cc
  listeners_load-set i (y ∷ ls) zero x h = ground arith
  listeners_load-set i (y ∷ ls) (suc k) x h = omega (arith, listeners_load-set i ls k x h)

  -- After `c` selections, each of which is in the load of its executor.
  pub record IsCounted (n c : ℕ) (s : Server R) : Type 0 where
    pub selections : s.executors ≡ counter n c
    pub loads : (i : ExecutorId) → load i s ≡ tally n i c

  pub start_listening-IsCounted :
      (n c : ℕ) (s : Server R) (m : R)
      → IsCounted n c s
      → 0 < n
      → c + 2 < size_t_mod
      → (s' : Server R) × (start_listening s m ≡ some s') × IsCounted n (suc (suc c)) s'
  unfolding start_listening
  start_listening-IsCounted n c s m h lt l = (
    s',
    rw
        (
          ◌>>=◌,
          select_lem s n c h.selections lt (omega arith),
          select_lem s₁ n (c + 1) refl lt (omega arith),
        )
        (ap some agree),
    record {
      selections = refl;
      loads = λ i. ground (arith, h.loads i, listeners_load-append i s.listeners (x ∷ []));
    },
  )
    where
      s₁ : Server R
      s₁ = record s { executors = counter n (c + 1) }

      x : Listener R
      x = record { method = m; spawned_on = c % n; listens_on = some (suc c % n) }

      s' : Server R
      s' = record s { executors = counter n (suc (suc c)); listeners = s.listeners ++ x ∷ [] }

      agree :
          ◌≡◌ {A = Server R}
            (record s {
              executors = counter n (c + 1 + 1);
              listeners =
                  s.listeners
                  ++ (record { method = m; spawned_on = c % n; listens_on = some ((c + 1) % n) })
                    ∷ [];
            })
            s'
      agree = ground arith
