-- ===== src/AsyncLib/Crossing.antt =====
-- `SpawnCrossTask` of async_lib/async_lib.hpp: a task of another executor, which runs jobs at once,
-- awaited by a coroutine of an executor that keeps its jobs for later.
pub mod Results
pub mod Launch
pub mod Starts
use async_sandbox.Prelude.{
  ℕ, suc, ◌≤◌, ◌<◌, ◌≡◌, ◌≢◌, refl, sym, fun_ext, true, false, Option, none, some, List, [], ◌∷◌,
  ◌++◌, arith, update, update_self, update_ne,
}
use async_sandbox.AsyncLib.Machine.{
  FrameId, ExecutorId, Code, return_void, cross, store_result, respawn, launch_child, Promise,
  World, Action, resume, enter, settle, go, returned, State, suspended, awaiting, crossing, running,
  done, step, run, destroy,
}
use async_sandbox.AsyncLib.Steps.{Steps, stop, next, Steps-trans, run_of_Steps}
use async_sandbox.AsyncLib.Dialogue.{Dialogue, answer, ask, Seq, denote, compile}
use async_sandbox.AsyncLib.Paths.{
  AwaitPath, Frames, Fresh, child, leaf_of, question, waiting, fill, meaning, Placed,
}
use async_sandbox.AsyncLib.Nesting.Calls.{enter_awaiting}
use async_sandbox.AsyncLib.Nesting.Runs.{with_frames, asked, ended, Ran, finishes, blocks}

module _ {V : Type 0} where
  -- `LaunchChild` while it awaits the task `t`, for the coroutine `j`.
  abbrev pub carry : FrameId → V → Code V
  carry j v = store_result j v (respawn j return_void)

  abbrev pub launcher : ExecutorId → State V → Promise V
  launcher e st = record {
    destroy_on_done = true;
    executor = some e;
    parent = none;
    result = none;
    state = st;
  }

  store_step :
      (w : World V) (l j : FrameId) (me : Promise V) (k : V → Code V) (v : V) (c : Code V)
      → w.frames j ≡ some (record me { state = crossing k })
      → step w (go l (store_result j v c))
        ≡ some (
          go l c ∷ [],
          with_frames w (update w.frames j (some (record me { state = suspended (k v) }))) w.next,
        )
  unfolding step
  store_step w l j me k v c h = rw (h, step)

  respawn_step :
      (w : World V) (l j : FrameId) (p : Promise V) (e : ExecutorId) (c : Code V)
      → w.frames j ≡ some p
      → p.executor ≡ some e
      → w.inline_spawn e ≡ false
      → step w (go l (respawn j c))
        ≡ some (go l c ∷ [], record w { ready = update w.ready e (w.ready e ++ j ∷ []) })
  unfolding step
  respawn_step w l j p e c h x i = rw (h, step, x, i)

  end_step :
      (w : World V) (l : FrameId) (p : Promise V)
      → w.frames l ≡ some p
      → step w (go l return_void)
        ≡ some ([], with_frames w (update w.frames l (some (record p { state = done }))) w.next)
  unfolding step
  end_step w l p h = rw (h, step)

  settle_launcher :
      (w : World V) (l : FrameId) (e : ExecutorId)
      → w.frames l ≡ some (launcher e done)
      → step w (settle l) ≡ some ([], with_frames w (update w.frames l none) w.next)
  unfolding step
  settle_launcher w l e h = rw (h, step)

  -- The frames when the launcher is through: the coroutine is to go on with the result, and the
  -- frames of the task and of the launcher are gone.
  abbrev pub carried : Frames V → FrameId → Promise V → Code V → FrameId → FrameId → Frames V
  carried f j me c t l =
      update (update (update f j (some (record me { state = suspended c }))) t none) l none

  carried_frames :
      (f : Frames V) (t l j : FrameId) (a b c d s : Option (Promise V))
      → j ≢ t
      → j ≢ l
      → update
          (update (update (update (update (update (update f l a) t b) l c) t none) j s) l d)
          l
          none
        ≡ update (update (update f j s) t none) l none
  carried_frames f t l j a b c d s h h' = fun_ext λ i. ground arith

  -- The launcher once the task has ended with `v`.
  pub carried_over :
      (w : World V) (f : Frames V) (j t l : FrameId) (me q : Promise V) (d e : ExecutorId)
      (k : V → Code V) (v : V)
      → w.frames ≡ ended (update f l (some (launcher d (awaiting t (carry j))))) t q v
      → f j ≡ some (record me { state = crossing k })
      → me.executor ≡ some e
      → w.inline_spawn e ≡ false
      → j ≢ t
      → j ≢ l
      → t ≢ l
      → Steps []
          (record w {
            frames = carried f j me (k v) t l;
            ready = update w.ready e (w.ready e ++ j ∷ []);
          })
          (enter l ∷ settle l ∷ [])
          w
  carried_over w f j t l me q d e k v h hj x i jt jl tl =
      next {v = with_frames w f₁ w.next}
        (enter_awaiting w l t (launcher d (awaiting t (carry j))) (record q { state = done })
          (carry j) v (rw h (ground arith)) (rw h (ground arith)) tl)
        (next {v = with_frames w f₂ w.next}
          (store_step (with_frames w f₁ w.next) l j me k v (respawn j return_void)
            (rw h (ground arith)))
          (next {v = record w { frames = f₂; ready = r }}
            (respawn_step (with_frames w f₂ w.next) l j (record me { state = suspended (k v) }) e
              return_void (update_self f₁ j _) x i)
            (next {v = record w { frames = f₃; ready = r }}
              (end_step (record w { frames = f₂; ready = r }) l (launcher d running) (ground arith))
              (next {v = record w { frames = update f₃ l none; ready = r }}
                (settle_launcher (record w { frames = f₃; ready = r }) l d (update_self f₂ l _))
                (stop_here (update f₃ l none) (rw h (carried_frames f t l j _ _ _ _ _ jt jl)))))))
    where
      r : ExecutorId → List FrameId
      r = update w.ready e (w.ready e ++ j ∷ [])

      f₁ : Frames V
      f₁ = update (update w.frames l (some (launcher d running))) t none

      f₂ : Frames V
      f₂ = update f₁ j (some (record me { state = suspended (k v) }))

      f₃ : Frames V
      f₃ = update f₂ l (some (launcher d done))

      stop_here :
          (g : Frames V)
          → g ≡ carried f j me (k v) t l
          → Steps []
              (record w { frames = carried f j me (k v) t l; ready = r })
              []
              (record w { frames = g; ready = r })
      stop_here g p = rw p stop
