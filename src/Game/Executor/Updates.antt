-- ===== src/Game/Executor/Updates.antt =====
-- What `Executor::Update` of game/async_game.cpp does with a task that was spawned on it.
use async_sandbox.Prelude.{
  ℕ, ◌<◌, ◌≡◌, refl, ap, ◌∙◌, true, false, none, some, List, [], ◌∷◌, ◌++◌, arith, ◌>>=◌, update,
  update_self,
}
use async_sandbox.AsyncLib.Machine.{
  FrameId, ExecutorId, Promise, State, suspended, running, World, resume, run, spawn_task,
  executor_spawn, new_promise,
}
use async_sandbox.AsyncLib.Dialogue.{Seq, denote, compile}
use async_sandbox.AsyncLib.Paths.{Fresh}
use async_sandbox.AsyncLib.Nesting.Runs.{Fresh-update}
use async_sandbox.AsyncLib.Resumption.{Serves, resume-Serves}
use async_sandbox.Game.Executor.{mark_ready, update_executor}

module _ {V : Type 0} where
  -- A root task as `Spawn` leaves it.
  abbrev pub spawned : ExecutorId → State V → Promise V
  spawned e st = record {
    destroy_on_done = true;
    executor = some e;
    parent = none;
    result = none;
    state = st;
  }

  abbrev pub bound : World V → ExecutorId → FrameId → Seq V → World V
  bound w e t c = record w { frames = update w.frames t (some (spawned e (suspended (compile c)))) }

  -- Spawning a task at its initial suspend point on an executor that does not run jobs at once
  -- runs nothing: it binds the task, to be destroyed when done, and puts its job behind the
  -- others.
  spawn_task-mark_ready :
      (c : Seq V) (w : World V) (e : ExecutorId) (t : FrameId)
      → w.inline_spawn e ≡ false
      → w.frames t ≡ some (new_promise (compile c))
      → spawn_task w e t ≡ some ([], mark_ready (bound w e t c) e t)
  unfolding spawn_task mark_ready
  spawn_task-mark_ready c w e t h p = rw (p, spawn_task, executor_spawn, h)

  update_one :
      (fuel : ℕ) (w w' : World V) (e : ExecutorId) (t : FrameId)
      → w.ready e ≡ t ∷ []
      → run fuel (resume t ∷ []) (record w { ready = update w.ready e [] }) ≡ some ([], w')
      → w'.ready e ≡ []
      → update_executor 2 fuel w e ≡ some w'
  unfolding update_executor
  update_one fuel w w' e t h q idle = rw (h, update_executor) (rw (◌>>=◌, q, idle))

  -- If nothing is ready, an update with the job of a task that was just spawned runs the task
  -- to its first request or to its end within two rounds, and ends with nothing ready.
  pub update_executor-Serves :
      (c : Seq V) (w : World V) (e : ExecutorId) (t : FrameId)
      → w.ready e ≡ []
      → t < w.next
      → Fresh w.frames w.next
      → (fuel : ℕ) × (w' : World V) × (update_executor 2 fuel (mark_ready (bound w e t c) e t) e
          ≡ some w')
        × Serves (bound w e t c).frames t (spawned e running) w' (denote c)
        × (w'.ready e ≡ [])
  unfolding mark_ready
  update_executor-Serves c w e t r lt fr =
      let (n, w', q, s, k) =
        resume-Serves c taken t (spawned e running) (update_self w.frames t _) refl lt
          (Fresh-update w.frames w.next w.next t _ fr (omega arith) lt) in
      let idle : w'.ready e ≡ [] =
        ap (λ (g : ExecutorId → List FrameId). g e) k
        ∙ update_self (update w.ready e (w.ready e ++ t ∷ [])) e [] in
      (n, w', update_one n (mark_ready (bound w e t c) e t) w' e t one_job q idle, s, idle)
    where
      taken : World V
      taken = record (bound w e t c) {
        ready = update (update w.ready e (w.ready e ++ t ∷ [])) e [];
      }

      one_job : update w.ready e (w.ready e ++ t ∷ []) e ≡ t ∷ []
      one_job = update_self w.ready e _ ∙ ap (λ (l : List FrameId). l ++ t ∷ []) r
