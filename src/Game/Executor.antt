-- ===== src/Game/Executor.antt =====
-- game/async_game.hpp and async_game.cpp: an executor whose jobs run when it is updated. Its ready
-- list is that of the machine of `AsyncLib.Machine`, where `Spawn` of such an executor is `MarkReady`.
pub mod Updates
use async_sandbox.Prelude.{
  ℕ, zero, suc, Bool, Option, none, some, List, [], ◌∷◌, ◌++◌, ◌>>=◌, update,
}
use async_sandbox.AsyncLib.Machine.{FrameId, ExecutorId, Action, World, resume, run}

module _ {V : Type 0} where
  -- `MarkReady`, which `Spawn` calls
  unfoldable pub mark_ready : World V → ExecutorId → FrameId → World V
  mark_ready w e job = record w { ready = update w.ready e (w.ready e ++ job ∷ []) }

  abbrev pub returns : List (Action V) × World V → Option (World V)
  returns ([], w) = some w
  returns (a ∷ s, w) = none

  -- `for (const auto& job : ready) Resume(job)`, each job for at most `fuel` steps
  unfoldable pub resume_all : ℕ → List FrameId → World V → Option (World V)
  resume_all fuel [] w = some w
  resume_all fuel (job ∷ jobs) w = do
    end ← run fuel (resume job ∷ []) w
    w' ← returns end
    resume_all fuel jobs w'

  -- `Update`, for at most `rounds` rounds of its loop: a round swaps the ready list out
  unfoldable pub update_executor : ℕ → ℕ → World V → ExecutorId → Option (World V)
  unfolding resume_all
  update_executor zero fuel w e = none
  update_executor (suc rounds) fuel w e = elim (w.ready e) [
    | [] ↦ some w
    | job ∷ jobs ↦
        (resume_all fuel (job ∷ jobs) (record w { ready = update w.ready e [] }) >>= λ w'.
        update_executor rounds fuel w' e)
  ]
