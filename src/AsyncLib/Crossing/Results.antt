-- ===== src/AsyncLib/Crossing/Results.antt =====
-- What `SpawnCrossTask` of async_lib/async_lib.hpp comes to.
use async_sandbox.Prelude.{
  ℕ, ◌<◌, ◌≡◌, ◌≢◌, refl, false, some, List, [], ◌∷◌, ◌++◌, arith, update, update_self,
}
use async_sandbox.AsyncLib.Machine.{
  FrameId, ExecutorId, Code, Promise, World, Action, resume, enter, settle, State, awaiting,
  crossing, running, run,
}
use async_sandbox.AsyncLib.Steps.{Steps, stop, next, Steps-trans, run_of_Steps}
use async_sandbox.AsyncLib.Dialogue.{Dialogue, answer, ask}
use async_sandbox.AsyncLib.Paths.{
  AwaitPath, Frames, Fresh, child, leaf_of, question, waiting, replied, fill, meaning, Placed,
}
use async_sandbox.AsyncLib.Nesting.Runs.{with_frames, ended, Ran, finishes, blocks, Ran-after}
use async_sandbox.AsyncLib.Resumption.{resume_path, settle_child, resume_step}
use async_sandbox.AsyncLib.Crossing.{carry, launcher, carried, carried_over}

-- A coroutine `j` with the promise `me`, of the executor `home`, that awaits the task at `t` of the
-- executor `abroad` through the launcher at `l`.
pub record Cross (V : Type 0) : Type 0 where
  pub j : FrameId
  pub t : FrameId
  pub l : FrameId
  pub me : Promise V
  pub home : ExecutorId
  pub abroad : ExecutorId
  pub rest : V → Code V

module _ {V : Type 0} where
  -- The task, which the launcher has started.
  abbrev pub task_of : Cross V → State V → Promise V
  task_of x st = child (some x.abroad) x.l st

  -- The heap without the task: `f` is the heap in which the coroutine waits for the result.
  abbrev pub launched : Cross V → Frames V → Frames V
  launched x f = update f x.l (some (launcher x.abroad (awaiting x.t (carry x.j))))

  pub record IsCross (x : Cross V) (f : Frames V) : Type 0 where
    pub crosses : f x.j ≡ some (record x.me { state = crossing x.rest })
    pub at_home : x.me.executor ≡ some x.home
    pub j_t : x.j ≢ x.t
    pub j_l : x.j ≢ x.l
    pub t_l : x.t ≢ x.l

  -- The world in which the task has come to the dialogue `d`. If it has ended, the coroutine is ready
  -- on its own executor, behind the jobs `ready`, to go on with the answer, and the frames of the
  -- task and its launcher are gone. If it waits, the coroutine is not ready.
  pub data Crosses (x : Cross V) (f : Frames V) (ready : ExecutorId → List FrameId) (w : World V)
      (d : Dialogue V) : Type 0 where
    arrived :
        (v : V)
        → d ≡ answer v
        → w.frames ≡ carried f x.j x.me (x.rest v) x.t x.l
        → w.ready ≡ update ready x.home (ready x.home ++ x.j ∷ [])
        → Crosses x f ready w d
    abroad :
        (π : AwaitPath V) (before : List (FrameId × V))
        → d ≡ ask (question π) (meaning π)
        → Placed π (launched x f) w.next x.t (task_of x running)
        → w.frames ≡ fill π (launched x f) x.t (task_of x running) (waiting π)
        → w.requests ≡ before ++ (leaf_of π x.t, question π) ∷ []
        → w.ready ≡ ready
        → x.t < w.next
        → Fresh (launched x f) w.next
        → Crosses x f ready w d

  -- A run of the task, on to the launcher.
  pub launched_run :
      {start : List (Action V)} (x : Cross V) (f : Frames V) (w : World V) (d : Dialogue V)
      → IsCross x f
      → w.inline_spawn x.home ≡ false
      → x.t < w.next
      → Fresh (launched x f) w.next
      → Ran (enter x.l ∷ settle x.l ∷ []) [] start w (launched x f) x.t (task_of x running) d
      → (w' : World V) × Steps [] w' start w × Crosses x f w.ready w' d
  launched_run x f w d h i lt fr (finishes v n le e r) = (
    _,
    Steps-trans r (
        carried_over (with_frames w (ended (launched x f) x.t (task_of x running) v) n) f x.j x.t
          x.l x.me (task_of x running) x.abroad x.home x.rest v refl h.crosses h.at_home i h.j_t
          h.j_l h.t_l),
    arrived v e refl refl,
  )
  launched_run x f w d h i lt fr (blocks π n le e pl r) =
      (_, r, abroad π w.requests e pl refl refl refl (omega arith) (λ m le'. fr m (omega arith)))

  reply_run :
      (x : Cross V) (f : Frames V) (w : World V) (π : AwaitPath V) (r : V)
      → w.frames ≡ fill π (launched x f) x.t (task_of x running) (replied π r)
      → Placed π (launched x f) w.next x.t (task_of x running)
      → x.t < w.next
      → Fresh (launched x f) w.next
      → Ran
          (enter x.l ∷ settle x.l ∷ [])
          []
          (resume (leaf_of π x.t) ∷ [])
          w
          (launched x f)
          x.t
          (task_of x running)
          (meaning π r)
  reply_run x f w π r e pl lt fr =
      Ran-after (enter x.l ∷ settle x.l ∷ []) []
        (λ v u g.
          next
            (settle_child u x.l x.t (task_of x running) v (rw g (update_self (launched x f) x.t _)))
            (next (resume_step u x.l) stop))
        (λ π' n u pl' g. stop)
        (resume_path π w (launched x f) x.t (task_of x running) r [] e pl lt fr)

  -- A reply to the task, which its executor resumes.
  pub resume-Crosses :
      (x : Cross V) (f : Frames V) (w : World V) (π : AwaitPath V) (r : V)
      → IsCross x f
      → w.inline_spawn x.home ≡ false
      → w.frames ≡ fill π (launched x f) x.t (task_of x running) (replied π r)
      → Placed π (launched x f) w.next x.t (task_of x running)
      → x.t < w.next
      → Fresh (launched x f) w.next
      → (n : ℕ) × (w' : World V) × (run n (resume (leaf_of π x.t) ∷ []) w ≡ some ([], w'))
        × Crosses x f w.ready w' (meaning π r)
  resume-Crosses x f w π r h i e pl lt fr =
      let (w', steps, s) =
        launched_run x f w (meaning π r) h i lt fr (reply_run x f w π r e pl lt fr) in
      let (n, q) = run_of_Steps steps in (n, w', q, s)
