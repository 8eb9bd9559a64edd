-- ===== src/AsyncLib/Resumption.antt =====
-- `Resume` of async_lib/async_lib.hpp against the dialogue of a task: resuming the frame that a reply
-- is for carries the reply up through the tasks that await each other.
use async_sandbox.Prelude.{
  ℕ, ◌<◌, ◌≡◌, refl, sym, ap, false, none, some, List, [], ◌∷◌, ◌++◌, arith, update, update_self,
  update_eq, update-update, if◌then◌else◌, Bool-cases, inl, inr,
}
use async_sandbox.AsyncLib.Machine.{
  FrameId, Promise, World, Action, resume, enter, settle, go, suspended, running, done, is_done,
  step, run, Outcome,
}
use async_sandbox.AsyncLib.Steps.{stop, next, Steps-trans, run_of_Steps}
use async_sandbox.AsyncLib.Dialogue.{Dialogue, answer, ask, Seq, denote, compile}
use async_sandbox.AsyncLib.Paths.{
  AwaitPath, leaf, under, Frames, Fresh, child, leaf_of, question, waiting, replied, awaits, fill,
  meaning, Placed, fill_root,
}
use async_sandbox.AsyncLib.Nesting.{after_call, exec}
use async_sandbox.AsyncLib.Nesting.Calls.{enter_step, stop_at}
use async_sandbox.AsyncLib.Nesting.Runs.{
  with_frames, ended, Ran, finishes, blocks, Ran-before, Ran-after, Ran-base, resumed, Fresh-update,
}

module _ {V : Type 0} where
  pub settle_waits :
      (w : World V) (t : FrameId) (p : Promise V)
      → w.frames t ≡ some p
      → is_done p.state ≡ false
      → step w (settle t) ≡ some ([], w)
  unfolding step
  settle_waits w t p h e = rw (h, step, e)

  pub settle_child :
      (w : World V) (t u : FrameId) (p : Promise V) (v : V)
      → w.frames u ≡ some (record (child p.executor t done) { result = some v })
      → step w (settle u) ≡ some (resume t ∷ [], w)
  unfolding step
  settle_child w t u p v h = rw (h, step)

  pub resume_step :
      (w : World V) (t : FrameId) → step w (resume t) ≡ some (enter t ∷ settle t ∷ [], w)
  unfolding step
  resume_step w t = refl

  -- The body of a task under `Resume`: it ends, and `Resume` settles it, or `Resume` returns.
  exec_resumed :
      (c : Seq V) (w : World V) (t : FrameId) (p : Promise V) (s : List (Action V))
      → w.frames t ≡ some p
      → t < w.next
      → Fresh w.frames w.next
      → Ran (settle t ∷ s) s (go t (compile c) ∷ settle t ∷ s) w w.frames t p (denote c)
  exec_resumed c w t p s h lt fr =
      Ran-after (settle t ∷ s) s (λ v x e. stop)
        (λ π n x pl e.
          let (st, fu, nd) = fill_root π w.frames n t p pl in
          next (settle_waits x t (record p { state = st }) (rw e fu) nd) stop)
        (exec c w t p (settle t ∷ s) h lt fr)

  -- `Resume` of a frame that is to run the body of a task.
  pub resume_body :
      (c : Seq V) (w : World V) (f : Frames V) (t : FrameId) (p : Promise V) (s : List (Action V))
      → w.frames ≡ update f t (some (record p { state = suspended (compile c) }))
      → t < w.next
      → Fresh f w.next
      → Ran (settle t ∷ s) s (resume t ∷ s) w f t p (denote c)
  resume_body c w f t p s e lt fr =
      Ran-before w g w.next (omega arith)
        (next (resume_step w t) (
          next (enter_step w t p (compile c) (rw e (update_self f t _)))
            (stop_at w w.next (rw e (update-update f t _ _)))))
        (Ran-base f t (some (resumed p)) p running (
          exec_resumed c (with_frames w g w.next) t (resumed p) s (update_self f t _) lt
            (Fresh-update f w.next w.next t _ fr (omega arith) lt)))
    where
      g : Frames V
      g = update f t (some (resumed p))

  -- `Resume` of the leaf of a path with a reply.
  pub resume_path :
      (π : AwaitPath V) (w : World V) (f : Frames V) (t : FrameId) (p : Promise V) (r : V)
      (s : List (Action V))
      → w.frames ≡ fill π f t p (replied π r)
      → Placed π f w.next t p
      → t < w.next
      → Fresh f w.next
      → Ran (settle t ∷ s) s (resume (leaf_of π t) ∷ s) w f t p (meaning π r)
  resume_path (leaf q k) w f t p r s e pl lt fr = resume_body (k r) w f t p s e lt fr
  resume_path (under u k π) w f t p r s e pl lt fr =
      let f₁ = update f t (some (record p { state = awaits u k })) in
      let q = child p.executor t running in
      after_call k f t u p (meaning π r) (settle t ∷ s) s (settle t ∷ s) (resume (leaf_of π u) ∷ s)
        w pl.0 pl.1 pl.2
        (λ v n le.
          exec_resumed (k v) (with_frames w (update f t (some (resumed p))) n) t (resumed p) s
            (update_self f t _) (omega arith) (Fresh-update f w.next n t _ fr le (omega arith)))
        (Ran-after (enter t ∷ settle t ∷ s) s
          (λ v x h.
            next (settle_child x t u p v (rw h (update_self f₁ u _))) (next (resume_step x t) stop))
          (λ π' n x pl' h. stop)
          (resume_path π w f₁ u q r s e pl.3 pl.2
            (Fresh-update f w.next w.next t _ fr (omega arith) lt)))

  abbrev pub cleaned : Frames V → FrameId → Promise V → V → Frames V
  cleaned f t p v = if p.destroy_on_done then update f t none else ended f t p v

  -- The world in which the task at `t` has come to the dialogue `d`. If the task waits, the frame
  -- that made its last request waits for the reply. If it has ended, no frame of the tasks that it
  -- called is left.
  pub data Serves (f : Frames V) (t : FrameId) (p : Promise V) (w : World V) (d : Dialogue V)
      : Type 0 where
    finished : (v : V) → d ≡ answer v → w.frames ≡ cleaned f t p v → Serves f t p w d
    waits :
        (π : AwaitPath V) (before : List (FrameId × V))
        → d ≡ ask (question π) (meaning π)
        → Placed π f w.next t p
        → w.frames ≡ fill π f t p (waiting π)
        → w.requests ≡ before ++ (leaf_of π t, question π) ∷ []
        → t < w.next
        → Fresh f w.next
        → Serves f t p w d

  pub settle_root :
      (w : World V) (f : Frames V) (t : FrameId) (p : Promise V) (v : V)
      → w.frames ≡ ended f t p v
      → p.parent ≡ none
      → step w (settle t) ≡ some ([], record w { frames = cleaned f t p v })
  unfolding step
  settle_root w f t p v e h = elim (Bool-cases p.destroy_on_done) [
    | inl d ↦ rw (at_root, step) (rw (h, d) (ap in_world cleared))
    | inr k ↦ rw (at_root, step) (rw (h, k) (ap in_world (rw (h, k) at e)))
  ]
    where
      at_root : w.frames t ≡ some (record p { result = some v; state = done })
      at_root = rw e (update_self f t _)

      in_world : Frames V → Outcome V
      in_world g = some ([], record w { frames = g })

      cleared : update w.frames t none ≡ update f t none
      cleared = rw e (update-update f t _ none)

  pub root_run :
      {start : List (Action V)} (w : World V) (f : Frames V) (t : FrameId) (p : Promise V)
      (d : Dialogue V)
      → p.parent ≡ none
      → t < w.next
      → Fresh f w.next
      → Ran (settle t ∷ []) [] start w f t p d
      → (n : ℕ) × (w' : World V) × (run n start w ≡ some ([], w'))
        × Serves f t p w' d
        × (w'.ready ≡ w.ready)
  root_run w f t p d h lt fr (finishes v n le e r) =
      let (k, q) = run_of_Steps (
        Steps-trans r (next (settle_root (with_frames w (ended f t p v) n) f t p v refl h) stop)) in
      (k, _, q, finished v e refl, refl)
  root_run w f t p d h lt fr (blocks π n le e pl r) =
      let (k, q) = run_of_Steps r in
      (k, _, q, waits π w.requests e pl refl refl (omega arith) (λ i le'. fr i (omega arith)), refl)

  -- A task with no parent that stands at its initial suspend point, and whose frame is resumed,
  -- comes to a stop with the first request of its dialogue, or with its answer, and the
  -- executors' ready jobs are as before.
  pub resume-Serves :
      (c : Seq V) (w : World V) (t : FrameId) (p : Promise V)
      → w.frames t ≡ some (record p { state = suspended (compile c) })
      → p.parent ≡ none
      → t < w.next
      → Fresh w.frames w.next
      → (n : ℕ) × (w' : World V) × (run n (resume t ∷ []) w ≡ some ([], w'))
        × Serves w.frames t p w' (denote c)
        × (w'.ready ≡ w.ready)
  resume-Serves c w t p e h lt fr =
      root_run w w.frames t p (denote c) h lt fr
        (resume_body c w w.frames t p [] (sym (update_eq w.frames t _ e)) lt fr)
