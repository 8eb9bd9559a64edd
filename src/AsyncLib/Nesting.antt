-- ===== src/AsyncLib/Nesting.antt =====
-- The body of a task on the machine: it runs to its end, or to the first request that is not
-- answered yet, at whatever depth of nested tasks (async_lib/async_lib.hpp, `TaskAwait`).
pub mod Runs
pub mod Calls
use async_sandbox.Prelude.{
  ℕ, suc, ◌+◌, ◌≤◌, ◌<◌, ◌≡◌, refl, sym, ap, subst, ◌≢◌, fun_ext, ◌∙◌, true, false, Option, none,
  some, List, [], ◌∷◌, ◌++◌, arith, update, update_self, update_ne, update-update,
}
use async_sandbox.AsyncLib.Machine.{
  FrameId, new_frame, Code, co_return, suspend, blocked, call, await, awaiting, Promise, World,
  Action, enter, go, returned, State, suspended, running, done, is_done, step, new_promise,
}
use async_sandbox.AsyncLib.Steps.{Steps, stop, next, Steps-trans}
use async_sandbox.AsyncLib.Dialogue.{
  Dialogue, answer, ask, Seq, ret, request, bind, and_then, denote, compile,
}
use async_sandbox.AsyncLib.Paths.{
  AwaitPath, leaf, under, Frames, Fresh, child, leaf_of, question, waiting, awaits, fill, meaning,
  Placed, fill_root, fill_base, Placed-base,
}
use Runs.{
  with_frames, asked, ended, nested, resumed, Ran, finishes, blocks, Ran-before, Ran-after,
  Ran-base, Fresh-update,
}
use Calls.{after_start_done, after_start_waits, return_step, suspend_step, start_call, finish_call}

module _ {V : Type 0} where
  -- What a parent does when the task that it awaits has ended, or waits.
  pub after_call :
      (k : V → Seq V) (f : Frames V) (t u : FrameId) (p : Promise V) (d : Dialogue V)
      (s b s₁ start : List (Action V)) (w : World V)
      → f u ≡ none
      → u ≢ t
      → u < w.next
      → ((v : V) (n : ℕ)
          → w.next ≤ n
          → let g = update f t (some (resumed p)) in
            Ran s b (go t (compile (k v)) ∷ s₁) (with_frames w g n) g t (resumed p) (denote (k v)))
      → Ran
          (enter t ∷ s₁)
          b
          start
          w
          (update f t (some (record p { state = awaits u k })))
          u
          (child p.executor t running)
          d
      → Ran s b start w f t p (and_then d (λ v. denote (k v)))
  unfolding and_then
  after_call k f t u p d s b s₁ start w h e lt go_on (finishes v n le m r) =
      let g = update f t (some (resumed p)) in
      let back =
        finish_call k
          (with_frames w
            (ended (update f t (some (record p { state = awaits u k }))) u
              (child p.executor t running) v)
            n)
          f t u p v s₁ refl h e in
      rw m (
        Ran-before w g n le (Steps-trans r back)
          (Ran-base f t (some (resumed p)) p running (go_on v n le)))
  after_call k f t u p d s b s₁ start w h e lt go_on (blocks π n le m pl r) =
      rw m (blocks (under u k π) n le refl (h, e, omega arith, pl) r)

  -- A call of a coroutine that is awaited, from the runs of the coroutine and of what follows.
  exec_bind :
      (c : Seq V) (k : V → Seq V) (w : World V) (t : FrameId) (p : Promise V) (s : List (Action V))
      → w.frames t ≡ some p
      → t < w.next
      → Fresh w.frames w.next
      → (let u = w.next in
          let f = nested w.frames t p u k in
          Ran
            (returned t u ∷ s)
            (returned t u ∷ s)
            (go u (compile c) ∷ returned t u ∷ s)
            (with_frames w f (suc u))
            f
            u
            (child p.executor t running)
            (denote c))
      → ((v : V) (n : ℕ)
          → suc w.next ≤ n
          → let g = update w.frames t (some (resumed p)) in
            Ran s s (go t (compile (k v)) ∷ s) (with_frames w g n) g t (resumed p) (denote (k v)))
      → Ran s s (go t (compile (bind c k)) ∷ s) w w.frames t p (denote (bind c k))
  unfolding denote
  exec_bind c k w t p s h lt fr inner rest =
      Ran-before w (nested f t p u k) (suc u) (omega arith) (start_call c k w t p s h lt) (
        after_call k f t u p (denote c) s s s start w₁ (fr u (omega arith)) (omega arith)
          (omega arith) rest outer)
    where
      u : FrameId
      u = w.next

      f : Frames V
      f = w.frames

      f₁ : Frames V
      f₁ = update f t (some (record p { state = awaits u k }))

      q : Promise V
      q = child p.executor t running

      w₁ : World V
      w₁ = with_frames w (nested f t p u k) (suc u)

      start : List (Action V)
      start = go u (compile c) ∷ returned t u ∷ s

      outer : Ran (enter t ∷ s) s start w₁ f₁ u q (denote c)
      outer =
          Ran-after (enter t ∷ s) s
            (λ v x e. next (after_start_done x t u q v (rw e (update_self f₁ u _))) stop)
            (λ π n x pl e.
              let (st, fu, nd) = fill_root π f₁ n u q pl in
              next (after_start_waits x t u (record q { state = st }) (rw e fu) nd) stop)
            (Ran-base f₁ u (some q) q running inner)

  -- The body of a task, on any stack: it ends, or it waits for a reply.
  pub exec :
      (c : Seq V) (w : World V) (t : FrameId) (p : Promise V) (s : List (Action V))
      → w.frames t ≡ some p
      → t < w.next
      → Fresh w.frames w.next
      → Ran s s (go t (compile c) ∷ s) w w.frames t p (denote c)
  unfolding compile denote
  exec (ret v) w t p s h lt fr =
      finishes v w.next (omega arith) refl (next (return_step w t p v h) stop)
  exec (request q k) w t p s h lt fr =
      blocks (leaf q k) w.next (omega arith) refl tt
        (next (suspend_step w t p q (λ r. compile (k r)) h) stop)
  exec (bind c k) w t p s h lt fr =
      let u = w.next in
      let f = w.frames in
      let q = child p.executor t running in
      exec_bind c k w t p s h lt fr
        (exec c (with_frames w (nested f t p u k) (suc u)) u q (returned t u ∷ s)
          (update_self (update f t (some (record p { state = awaits u k }))) u (some q))
          (omega arith)
          (Fresh-update _ (suc u) (suc u) u _
            (Fresh-update f u (suc u) t _ fr (omega arith) (omega arith)) (omega arith)
            (omega arith)))
        (λ v n le.
          exec (k v) (with_frames w (update f t (some (resumed p))) n) t (resumed p) s
            (update_self f t _) (omega arith)
            (Fresh-update f u n t _ fr (omega arith) (omega arith)))
