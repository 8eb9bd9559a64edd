-- ===== src/AsyncGrpc/Listening.antt =====
-- The listening of async_grpc/async_grpc/server.hpp and server.cpp. A loop `ListenUnary`, or of one of
-- its three kin, selects an executor, listens for one call on it, spawns the call's handler on it, and
-- goes round. The calls come as events, each with the number of the loop that gets it and the flag
-- that its `Listen` gives: false once the server shuts down.
pub mod Selection
pub mod Tally
pub mod Loads
pub mod Shares
pub mod Refinement
pub mod Starts
use async_sandbox.Prelude.{
  ℕ, zero, suc, Bool, true, false, Option, none, some, List, [], ◌∷◌, ◌++◌, ◌>>=◌, get_elem?,
}
use async_sandbox.AsyncLib.Machine.{ExecutorId}
use async_sandbox.AsyncGrpc.RoundRobin.{Executors, select_next_executor}

-- A loop that listens for the calls of one method: the executor that it was spawned on, and the one
-- with which it listens, until it ends.
pub record Listener (R : Type 0) : Type 0 where
  pub method : R
  pub spawned_on : ExecutorId
  pub listens_on : Option ExecutorId

pub record Server (R : Type 0) : Type 0 where
  pub executors : Executors ExecutorId
  pub listeners : List (Listener R)
  -- the handlers spawned, oldest first
  pub handlers : List (R × ExecutorId)

pub record ServerOptions (R : Type 0) : Type 0 where
  -- the methods of each service, as its `StartListening` has them
  pub services : List (List R)
  pub executor_count : ℕ

-- So many executors, from the number `e` on.
abbrev pub executors_from : ExecutorId → ℕ → List ExecutorId
executors_from e zero = []
executors_from e (suc n) = e ∷ executors_from (suc e) n

abbrev pub set {ℓ} : {A : Type ℓ} → List A → ℕ → A → List A
set [] i a = []
set (x ∷ xs) zero a = a ∷ xs
set (x ∷ xs) (suc i) a = x ∷ set xs i a

module _ {R : Type 0} where
  -- `SelectNextExecutor`
  unfoldable pub select : Server R → Option (ExecutorId × Server R)
  select s = do
    let (selected, executors) = select_next_executor s.executors
    e ← selected
    some (e, record s { executors = executors })

  -- `StartListeningUnary` and its kin: the loop is spawned, and runs up to its first `Listen`.
  unfoldable pub start_listening : Server R → R → Option (Server R)
  unfolding select
  start_listening s method = do
    (loop, s₁) ← select s
    (call, s₂) ← select s₁
    let l : Listener R = record { method = method; spawned_on = loop; listens_on = some call }
    some (record s₂ { listeners = s₂.listeners ++ l ∷ [] })

  unfoldable pub start_service : Server R → List R → Option (Server R)
  unfolding start_listening
  start_service s [] = some s
  start_service s (m ∷ ms) = do s₁ ← start_listening s m; start_service s₁ ms

  unfoldable pub start_services : Server R → List (List R) → Option (Server R)
  unfolding start_service
  start_services s [] = some s
  start_services s (ms ∷ rest) = do s₁ ← start_service s ms; start_services s₁ rest

  abbrev pub built : ℕ → Server R
  built n = record {
    executors = record { executors = executors_from 0 n; next_executor = 0 };
    listeners = [];
    handlers = [];
  }

  -- `Server::Server`
  unfoldable pub new_server : ServerOptions R → Option (Server R)
  unfolding start_services
  new_server options = start_services (built options.executor_count) options.services

  -- The loop of the listener `i`, whose `Listen` with the executor `e` has given a flag.
  unfoldable pub after_listen : Server R → ℕ → Listener R → ExecutorId → Bool → Option (Server R)
  unfolding select
  after_listen s i l e false =
      some (record s { listeners = set s.listeners i (record l { listens_on = none }) })
  after_listen s i l e true = do
    (next, s₁) ← select (record s { handlers = s.handlers ++ (l.method, e) ∷ [] })
    some (record s₁ { listeners = set s₁.listeners i (record l { listens_on = some next }) })

  unfoldable pub on_event : Server R → ℕ × Bool → Option (Server R)
  unfolding after_listen
  on_event s (i, ok) = do l ← get_elem? s.listeners i; e ← l.listens_on; after_listen s i l e ok

  unfoldable pub serve : Server R → List (ℕ × Bool) → Option (Server R)
  unfolding on_event
  serve s [] = some s
  serve s (e ∷ es) = do s₁ ← on_event s e; serve s₁ es
