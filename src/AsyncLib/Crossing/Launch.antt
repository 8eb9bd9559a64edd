-- ===== src/AsyncLib/Crossing/Launch.antt =====
-- `SpawnCrossTask` of async_lib/async_lib.hpp up to the first step of its task.
use async_sandbox.Prelude.{
  suc, ◌<◌, ◌≡◌, ◌≢◌, fun_ext, true, Option, some, List, [], ◌∷◌, arith, update, update_self,
}
use async_sandbox.AsyncLib.Machine.{
  FrameId, ExecutorId, Code, cross, launch_child, new_promise, Promise, World, Action, resume,
  settle, go, returned, suspended, awaiting, crossing, running, step,
}
use async_sandbox.AsyncLib.Steps.{Steps, next}
use async_sandbox.AsyncLib.Dialogue.{Seq, compile}
use async_sandbox.AsyncLib.Paths.{Frames, child}
use async_sandbox.AsyncLib.Nesting.Calls.{enter_step, stop_at, await_step}
use async_sandbox.AsyncLib.Nesting.Runs.{with_frames}
use async_sandbox.AsyncLib.Resumption.{resume_step}
use async_sandbox.AsyncLib.Crossing.{carry, launcher}

module _ {V : Type 0} where
  -- The launcher's frame, as `Spawn` leaves it.
  abbrev spawned_frames :
      World V → FrameId → Promise V → (V → Code V) → ExecutorId → FrameId → Frames V
  spawned_frames w j me k e t =
      update
        (update (update w.frames j (some (record me { state = crossing k }))) w.next
          (some (new_promise (launch_child j t))))
        w.next (some (launcher e (suspended (launch_child j t))))

  cross_step :
      (w : World V) (j t : FrameId) (me : Promise V) (k : V → Code V) (e : ExecutorId)
      → w.frames j ≡ some me
      → w.inline_spawn e ≡ true
      → step w (go j (cross e t k))
        ≡ some (resume w.next ∷ [], with_frames w (spawned_frames w j me k e t) (suc w.next))
  unfolding step
  cross_step w j t me k e h i = rw (
    h,
    step,
    update_self (update w.frames j (some (record me { state = crossing k }))) w.next
        (some (new_promise (launch_child j t))),
    i,
  )

  started_frames :
      (f : Frames V) (l t : FrameId) (a b c d s z : Option (Promise V))
      → t ≢ l
      → update (update (update (update (update (update f l a) l b) l c) l d) t s) t z
        ≡ update (update f l d) t z
  started_frames f l t a b c d s z h = fun_ext λ i. ground arith

  -- The launcher starts the task.
  pub launched_by :
      (w : World V) (j t : FrameId) (me : Promise V) (k : V → Code V) (c : Seq V) (e : ExecutorId)
      (s : List (Action V))
      → w.frames j ≡ some me
      → w.frames t ≡ some (new_promise (compile c))
      → w.inline_spawn e ≡ true
      → j ≢ t
      → t < w.next
      → Steps
          (go t (compile c) ∷ returned w.next t ∷ settle w.next ∷ s)
          (with_frames w
            (update
              (update
                (update w.frames j (some (record me { state = crossing k })))
                w.next
                (some (launcher e (awaiting t (carry j)))))
              t
              (some (child (some e) w.next running)))
            (suc w.next))
          (go j (cross e t k) ∷ s)
          w
  unfolding launch_child
  launched_by w j t me k c e s hj ht i jt lt = next (cross_step w j t me k e hj i) (
      next (resume_step w₁ l) (
        next {v = w₂}
          (enter_step w₁ l (launcher e running) (launch_child j t)
            (update_self (update f l (some (new_promise (launch_child j t)))) l _))
          (next {v = w₃}
            (await_step w₂ l t (launcher e running) (compile c) (carry j) (update_self g₁ l _) kept)
            (next
              (enter_step w₃ t (child (some e) l (suspended (compile c))) (compile c)
                (update_self g₃ t _))
              there))))
    where
      l : FrameId
      l = w.next

      f : Frames V
      f = update w.frames j (some (record me { state = crossing k }))

      g₁ : Frames V
      g₁ = spawned_frames w j me k e t

      w₁ : World V
      w₁ = with_frames w g₁ (suc l)

      g₂ : Frames V
      g₂ = update g₁ l (some (launcher e running))

      w₂ : World V
      w₂ = with_frames w g₂ (suc l)

      g₃ : Frames V
      g₃ = update g₂ l (some (launcher e (awaiting t (carry j))))

      w₃ : World V
      w₃ = with_frames w (update g₃ t (some (child (some e) l (suspended (compile c))))) (suc l)

      kept : g₂ t ≡ some (new_promise (compile c))
      kept = ground arith

      there :
          Steps
            (go t (compile c) ∷ returned l t ∷ settle l ∷ s)
            (with_frames w
              (update
                (update f l (some (launcher e (awaiting t (carry j)))))
                t
                (some (child (some e) l running)))
              (suc l))
            (go t (compile c) ∷ returned l t ∷ settle l ∷ s)
            (with_frames w
              (update
                (update g₃ t (some (child (some e) l (suspended (compile c)))))
                t
                (some (child (some e) l running)))
              (suc l))
      there = stop_at w (suc l) (started_frames f l t _ _ _ _ _ _ (ground arith))
