-- ===== src/AsyncLib/Crossing/Starts.antt =====
-- How `SpawnCrossTask` of async_lib/async_lib.hpp starts: its launcher, and the task.
use async_sandbox.Prelude.{
  ℕ, suc, ◌<◌, ◌≡◌, ◌≢◌, refl, true, false, some, [], ◌∷◌, arith, update, update_self,
}
use async_sandbox.AsyncLib.Machine.{
  FrameId, ExecutorId, Code, cross, new_promise, Promise, World, enter, settle, go, returned,
  awaiting, crossing, running, run,
}
use async_sandbox.AsyncLib.Steps.{stop, next, Steps-trans, run_of_Steps}
use async_sandbox.AsyncLib.Dialogue.{Seq, denote, compile}
use async_sandbox.AsyncLib.Paths.{Frames, Fresh, waiting, fill_keep, fill_root}
use async_sandbox.AsyncLib.Nesting.{exec}
use async_sandbox.AsyncLib.Nesting.Calls.{after_start_done, after_start_waits}
use async_sandbox.AsyncLib.Nesting.Runs.{with_frames, Ran, Ran-after, Ran-base, Fresh-update}
use async_sandbox.AsyncLib.Resumption.{settle_waits}
use async_sandbox.AsyncLib.Crossing.{carry, launcher}
use async_sandbox.AsyncLib.Crossing.Results.{
  Cross, IsCross, Crosses, task_of, launched, launched_run,
}
use async_sandbox.AsyncLib.Crossing.Launch.{launched_by}

module _ {V : Type 0} where
  -- The coroutine at `j`, which awaits the task at `t` from now on.
  abbrev pub awaiting_cross :
      World V → FrameId → FrameId → Promise V → ExecutorId → ExecutorId → (V → Code V) → Cross V
  awaiting_cross w j t me home away k = record {
    j = j;
    t = t;
    l = w.next;
    me = me;
    home = home;
    abroad = away;
    rest = k;
  }

  -- A coroutine of an executor that keeps its jobs for later, which awaits a task that was not started
  -- yet through an executor that runs jobs at once, does not go on itself. The other executor's
  -- thread runs the task to its first request or to its end; at the end the coroutine is ready on
  -- its own executor, with the result, and the frames of the task and the launcher are gone.
  pub cross-Crosses :
      (c : Seq V) (w : World V) (j t : FrameId) (me : Promise V) (home away : ExecutorId)
      (k : V → Code V)
      → w.frames j ≡ some me
      → w.frames t ≡ some (new_promise (compile c))
      → me.executor ≡ some home
      → w.inline_spawn home ≡ false
      → w.inline_spawn away ≡ true
      → j ≢ t
      → j < w.next
      → t < w.next
      → Fresh w.frames w.next
      → (n : ℕ) × (w' : World V) × (run n (go j (cross away t k) ∷ []) w ≡ some ([], w'))
        × Crosses
            (awaiting_cross w j t me home away k)
            (update w.frames j (some (record me { state = crossing k })))
            w.ready
            w'
            (denote c)
  cross-Crosses c w j t me home away k hj ht hx ih ia jt lj lt fr =
      let (w', steps, s) = launched_run x f w₁ (denote c) is_cross ih (omega arith) fresh started in
      let (n, q) =
        run_of_Steps (Steps-trans (launched_by w j t me k c away [] hj ht ia jt lt) steps) in
      (n, w', q, s)
    where
      l : FrameId
      l = w.next

      x : Cross V
      x = awaiting_cross w j t me home away k

      f : Frames V
      f = update w.frames j (some (record me { state = crossing k }))

      w₁ : World V
      w₁ = with_frames w (update (launched x f) t (some (task_of x running))) (suc l)

      is_cross : IsCross x f
      is_cross = record {
        crosses = update_self w.frames j _;
        at_home = hx;
        j_t = jt;
        j_l = ground arith;
        t_l = ground arith;
      }

      fresh : Fresh (launched x f) (suc l)
      fresh =
          Fresh-update f l (suc l) l _ (Fresh-update w.frames l l j _ fr (omega arith) lj)
            (omega arith) (omega arith)

      started :
          Ran
            (enter l ∷ settle l ∷ [])
            []
            (go t (compile c) ∷ returned l t ∷ settle l ∷ [])
            w₁
            (launched x f)
            t
            (task_of x running)
            (denote c)
      started =
          Ran-after (enter l ∷ settle l ∷ []) []
            (λ v u e.
              next
                (after_start_done u l t (task_of x running) v
                  (rw e (update_self (launched x f) t _)))
                stop)
            (λ π n u pl e.
              let (st, ft, nd) = fill_root π (launched x f) n t (task_of x running) pl in
              next
                (after_start_waits u l t (record (task_of x running) { state = st }) (rw e ft) nd)
                (next
                  (settle_waits u l (launcher away (awaiting t (carry j)))
                    (rw e (
                      fill_keep π (launched x f) n t (task_of x running)
                        (launcher away (awaiting t (carry j))) (waiting π) l pl (update_self f l _)
                        (ground arith)))
                    refl)
                  stop))
            (Ran-base (launched x f) t (some (task_of x running)) (task_of x running) running (
              exec c w₁ t (task_of x running) (returned l t ∷ settle l ∷ [])
                (update_self (launched x f) t _) (omega arith)
                (Fresh-update (launched x f) (suc l) (suc l) t _ fresh (omega arith)
                  (omega arith))))
