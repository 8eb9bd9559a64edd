-- ===== src/AsyncLib/Nesting/Calls.antt =====
-- Single steps of `TaskAwait` and of a coroutine's body (async_lib/async_lib.hpp), and the call of a
-- coroutine whose task is awaited at once.
use async_sandbox.Prelude.{
  ℕ, suc, ◌<◌, ◌≡◌, refl, sym, ◌≢◌, fun_ext, false, Option, none, some, List, [], ◌∷◌, arith,
  update, update_self, update_ne,
}
use async_sandbox.AsyncLib.Machine.{
  FrameId, new_frame, Code, co_return, suspend, blocked, await, awaiting, Promise, World, Action,
  enter, go, returned, suspended, running, done, is_done, step, new_promise,
}
use async_sandbox.AsyncLib.Steps.{Steps, stop, next}
use async_sandbox.AsyncLib.Dialogue.{Seq, bind, compile}
use async_sandbox.AsyncLib.Paths.{Frames, child, awaits}
use async_sandbox.AsyncLib.Nesting.Runs.{with_frames, asked, ended, nested}

module _ {V : Type 0} where
  pub return_step :
      (w : World V) (t : FrameId) (p : Promise V) (v : V)
      → w.frames t ≡ some p
      → step w (go t (co_return v)) ≡ some ([], with_frames w (ended w.frames t p v) w.next)
  unfolding step
  return_step w t p v h = rw (h, step)

  pub suspend_step :
      (w : World V) (t : FrameId) (p : Promise V) (q : V) (k : V → Code V)
      → w.frames t ≡ some p
      → step w (go t (suspend q k))
        ≡ some
            ([], asked w (update w.frames t (some (record p { state = blocked q k }))) w.next t q)
  unfolding step
  suspend_step w t p q k h = rw (h, step)

  pub after_start_done :
      (w : World V) (t u : FrameId) (p : Promise V) (v : V)
      → w.frames u ≡ some (record p { result = some v; state = done })
      → step w (returned t u) ≡ some (enter t ∷ [], w)
  unfolding step
  after_start_done w t u p v h = rw (h, step)

  pub after_start_waits :
      (w : World V) (t u : FrameId) (p : Promise V)
      → w.frames u ≡ some p
      → is_done p.state ≡ false
      → step w (returned t u) ≡ some ([], w)
  unfolding step
  after_start_waits w t u p h e = rw (h, step, e)

  pub await_step :
      (w : World V) (t u : FrameId) (p : Promise V) (c : Code V) (k : V → Code V)
      → w.frames t ≡ some p
      → w.frames u ≡ some (new_promise c)
      → step w (go t (await u k))
        ≡ some (
          enter u ∷ returned t u ∷ [],
          with_frames w
              (update
                (update w.frames t (some (record p { state = awaiting u k })))
                u
                (some (child p.executor t (suspended c))))
              w.next,
        )
  unfolding step
  await_step w t u p c k h e = rw (h, e, step)

  pub enter_step :
      (w : World V) (t : FrameId) (p : Promise V) (c : Code V)
      → w.frames t ≡ some (record p { state = suspended c })
      → step w (enter t)
        ≡ some (
          go t c ∷ [],
          with_frames w (update w.frames t (some (record p { state = running }))) w.next,
        )
  unfolding step
  enter_step w t p c h = rw (h, step)

  -- A frame that awaits a task which is done goes on with its result, and the task's frame is gone.
  pub enter_awaiting :
      (w : World V) (t u : FrameId) (p q : Promise V) (k : V → Code V) (v : V)
      → w.frames t ≡ some (record p { state = awaiting u k })
      → w.frames u ≡ some (record q { result = some v })
      → u ≢ t
      → step w (enter t)
        ≡ some (
          go t (k v) ∷ [],
          with_frames w
              (update (update w.frames t (some (record p { state = running }))) u none)
              w.next,
        )
  unfolding step
  enter_awaiting w t u p q k v h e d = rw (h, step, update_ne w.frames t u _ (λ c. d (sym c)), e)

  pub stop_at :
      {s : List (Action V)} (w : World V) {f g : Frames V} (n : ℕ)
      → g ≡ f
      → Steps s (with_frames w f n) s (with_frames w g n)
  stop_at w n e = rw e stop

  pub nested_frames :
      (f : Frames V) (t u : FrameId) (a b c d : Option (Promise V))
      → update (update (update (update f u a) t b) u c) u d ≡ update (update f t b) u d
  nested_frames f t u a b c d = fun_ext λ i. ground arith

  -- `co_await c()` starts the child at once.
  pub start_call :
      (c : Seq V) (k : V → Seq V) (w : World V) (t : FrameId) (p : Promise V) (s : List (Action V))
      → w.frames t ≡ some p
      → t < w.next
      → Steps
          (go w.next (compile c) ∷ returned t w.next ∷ s)
          (with_frames w (nested w.frames t p w.next k) (suc w.next))
          (go t (compile (bind c k)) ∷ s)
          w
  unfolding step compile
  start_call c k w t p s h lt =
      let u = w.next in
      let w₁ = new_frame w (compile c) in
      let w₂ =
        with_frames w₁
          (update (update w₁.frames t (some (record p { state = awaits u k }))) u
            (some (child p.executor t (suspended (compile c)))))
          (suc u) in
      next {v = w₁} refl (
        next {v = w₂}
          (await_step w₁ t u p (compile c) (λ v. compile (k v)) (ground arith)
            (update_self w.frames u _))
          (next
            (enter_step w₂ u (child p.executor t (suspended (compile c))) (compile c)
              (ground arith))
            (stop_at w (suc u) (nested_frames w.frames t u _ _ _ _))))

  pub finished_frames :
      (f : Frames V) (t u : FrameId) (a b c : Option (Promise V))
      → f u ≡ none
      → u ≢ t
      → update (update (update (update f t a) u b) t c) u none ≡ update f t c
  finished_frames f t u a b c h e = fun_ext λ i. ground arith

  -- A child that has ended in its call lets its parent go on.
  pub finish_call :
      (k : V → Seq V) (w : World V) (f : Frames V) (t u : FrameId) (p : Promise V) (v : V)
      (s : List (Action V))
      → w.frames
        ≡ ended
            (update f t (some (record p { state = awaits u k })))
            u
            (child p.executor t running)
            v
      → f u ≡ none
      → u ≢ t
      → Steps
          (go t (compile (k v)) ∷ s)
          (with_frames w (update f t (some (record p { state = running }))) w.next)
          (enter t ∷ s)
          w
  finish_call k w f t u p v s e h d =
      next
        (enter_awaiting w t u (record p { state = awaits u k }) (child p.executor t done)
          (λ x. compile (k x)) v (rw e (ground arith)) (rw e (ground arith)) d)
        (stop_at w w.next (rw e (finished_frames f t u _ _ _ h d)))
