-- ===== src/AsyncGrpc/Serving.antt =====
-- `Tick` of async_grpc/async_grpc/async_grpc.cpp against the dialogue of a task.
use async_sandbox.Prelude.{
  ℕ, zero, suc, ◌+◌, ◌≤◌, ◌≡◌, refl, ap, true, Option, none, some, List, [], ◌∷◌, ◌++◌, map, arith,
  update_self, update-update, Option-cases, inl, inr,
}
use async_sandbox.AsyncLib.Machine.{FrameId, Promise, blocked, World, Action, resume, run, step}
use async_sandbox.AsyncLib.Dialogue.{Dialogue, answer, ask, compile}
use async_sandbox.AsyncLib.Paths.{
  AwaitPath, leaf, under, Frames, leaf_of, question, waiting, replied, fill, meaning,
}
use async_sandbox.AsyncLib.Resumption.{Serves, finished, waits, resume_path, root_run}
use async_sandbox.AsyncGrpc.CompletionQueue.{Event, deliver, tick, executor_thread}

abbrev pub last_request : {V : Type 0} → List (Event V) → Option (Event V)
last_request [] = none
last_request (e ∷ []) = some e
last_request (e ∷ d ∷ es) = last_request (d ∷ es)

module _ {V : Type 0} where
  pub last_request-append :
      (es : List (Event V)) (e : Event V) → last_request (es ++ e ∷ []) ≡ some e
  last_request-append [] e = refl
  last_request-append (d ∷ []) e = refl
  last_request-append (d ∷ c ∷ es) e = last_request-append (c ∷ es) e

  -- More fuel changes nothing.
  pub run_mono :
      (n : ℕ) (s : List (Action V)) (w w' : World V)
      → run n s w ≡ some ([], w')
      → (m : ℕ) → n ≤ m
      → run m s w ≡ some ([], w')
  unfolding run
  run_mono n [] w w' h m le = h
  run_mono zero (a ∷ s) w w' h m le = cc
  run_mono (suc n) (a ∷ s) w w' h zero le = absurd (omega arith)
  run_mono (suc n) (a ∷ s) w w' h (suc m) le = elim (Option-cases (step w a)) [
    | inl e ↦ cc (rw (e, run) at h)
    | inr ((todo, v), e) ↦
        rw (e, run) (run_mono n (todo ++ s) v w' (rw (e, run) at h) m (omega arith))
  ]

  -- A reply to the leaf of a path.
  pub deliver-fill :
      (π : AwaitPath V) (w : World V) (f : Frames V) (t : FrameId) (p : Promise V) (r : V)
      → w.frames ≡ fill π f t p (waiting π)
      → deliver w (leaf_of π t, r) ≡ some (record w { frames = fill π f t p (replied π r) })
  unfolding deliver
  deliver-fill (leaf q k) w f t p r e =
      rw (at_leaf, deliver) (ap in_world (rw e (update-update f t _ _)))
    where
      at_leaf : w.frames t ≡ some (record p { state = blocked q (λ x. compile (k x)) })
      at_leaf = rw e (update_self f t _)

      in_world : Frames V → Option (World V)
      in_world g = some (record w { frames = g })
  deliver-fill (under u k π) w f t p r e = deliver-fill π w _ u _ r e

  pub tick_lem :
      (fuel : ℕ) (t : FrameId) (r : V) (w w₁ w₂ : World V)
      → deliver w (t, r) ≡ some w₁
      → run fuel (resume t ∷ []) w₁ ≡ some ([], w₂)
      → tick fuel (some (t, r)) w ≡ some (true, w₂)
  unfolding tick
  tick_lem fuel t r w w₁ w₂ h e = rw (h, tick) (rw e)

  unfoldable pub next_of : Dialogue V → V → Dialogue V
  next_of (answer v) r = answer v
  next_of (ask q d) r = d r

  -- With any fuel from some point on.
  tick_steadily :
      (f : Frames V) (t : FrameId) (p : Promise V) (w : World V) (q : V) (d : V → Dialogue V)
      (l : FrameId)
      → p.parent ≡ none
      → Serves f t p w (ask q d)
      → last_request w.requests ≡ some (l, q)
      → (r : V)
      → (n : ℕ) × (w' : World V) × ((m : ℕ) → n ≤ m → tick m (some (l, r)) w ≡ some (true, w'))
        × Serves f t p w' (d r)
  unfolding next_of
  tick_steadily f t p w q d l h (finished v e g) b r = cc
  tick_steadily f t p w q d l h (waits π before e pl g last lt fr) b r =
      let w₁ = record w { frames = fill π f t p (replied π r) } in
      let at_leaf : l ≡ leaf_of π t = ground (
        arith,
        ap (λ (es : List (Event V)). last_request es) last,
        last_request-append before (leaf_of π t, question π),
      ) in
      let same : d r ≡ meaning π r = ap (λ (x : Dialogue V). next_of x r) e in
      let (n, w', go_on, served, _) =
        root_run w₁ f t p (meaning π r) h lt fr (resume_path π w₁ f t p r [] refl pl lt fr) in
      rw (same, at_leaf)
        (
          n,
          w',
          λ m le.
              tick_lem m (leaf_of π t) r w w₁ w' (deliver-fill π w f t p r g)
                (run_mono n _ w₁ w' go_on m le),
          served,
        )

  -- The reply to the last request, taken off the queue by one `Tick`, moves the task that waits for
  -- it on to the next request of its dialogue, or to its answer.
  pub tick-Serves :
      (f : Frames V) (t : FrameId) (p : Promise V) (w : World V) (q : V) (d : V → Dialogue V)
      (l : FrameId)
      → p.parent ≡ none
      → Serves f t p w (ask q d)
      → last_request w.requests ≡ some (l, q)
      → (r : V)
      → (n : ℕ) × (w' : World V) × (tick n (some (l, r)) w ≡ some (true, w'))
        × Serves f t p w' (d r)
  tick-Serves f t p w q d l h s b r =
      let (n, w', e, s') = tick_steadily f t p w q d l h s b r in (n, w', e n (omega arith), s')

  -- The replies that a dialogue takes, and what it comes to.
  abbrev pub taken : Dialogue V → List V → List V
  taken (answer v) rs = []
  taken (ask q d) [] = []
  taken (ask q d) (r ∷ rs) = r ∷ taken (d r) rs

  abbrev pub comes_to : Dialogue V → List V → Dialogue V
  comes_to (answer v) rs = answer v
  comes_to (ask q d) [] = ask q d
  comes_to (ask q d) (r ∷ rs) = comes_to (d r) rs

  pending :
      (f : Frames V) (t : FrameId) (p : Promise V) (w : World V) (q : V) (d : V → Dialogue V)
      → Serves f t p w (ask q d)
      → (l : FrameId) × (last_request w.requests ≡ some (l, q))
  pending f t p w q d (finished v e g) = cc
  pending f t p w q d (waits π before e pl g last lt fr) =
      (leaf_of π t, rw last (cc (last_request-append before (leaf_of π t, question π))))

  executor_thread_steadily :
      (f : Frames V) (t : FrameId) (p : Promise V) (w : World V) (d : Dialogue V)
      → p.parent ≡ none
      → Serves f t p w d
      → (rs : List V)
      → (n : ℕ) × (es : List (Event V)) × (w' : World V) × (map (λ e. e.1) es ≡ taken d rs)
        × ((m : ℕ) → n ≤ m → executor_thread m es w ≡ some w')
        × Serves f t p w' (comes_to d rs)
  unfolding executor_thread
  executor_thread_steadily f t p w (answer v) h s rs = (0, [], w, refl, λ m le. refl, s)
  executor_thread_steadily f t p w (ask q d) h s [] = (0, [], w, refl, λ m le. refl, s)
  executor_thread_steadily f t p w (ask q d) h s (r ∷ rs) =
      let (l, b) = pending f t p w q d s in
      let (n₁, w₁, e₁, s₁) = tick_steadily f t p w q d l h s b r in
      let (n₂, es, w₂, e₂, e₃, s₂) = executor_thread_steadily f t p w₁ (d r) h s₁ rs in
      (
        n₁ + n₂,
        (l, r) ∷ es,
        w₂,
        ap (λ (x : List V). r ∷ x) e₂,
        λ m le. rw (e₁ m (omega arith)) (e₃ m (omega arith)),
        s₂,
      )

  -- Whatever the replies, an executor's thread that gets them as events runs to the end, and the task
  -- has come to what its dialogue says. The dialogue takes the replies in order.
  pub executor_thread-Serves :
      (f : Frames V) (t : FrameId) (p : Promise V) (w : World V) (d : Dialogue V)
      → p.parent ≡ none
      → Serves f t p w d
      → (rs : List V)
      → (n : ℕ) × (es : List (Event V)) × (w' : World V) × (map (λ e. e.1) es ≡ taken d rs)
        × (executor_thread n es w ≡ some w')
        × Serves f t p w' (comes_to d rs)
  executor_thread-Serves f t p w d h s rs =
      let (n, es, w', e, run_on, s') = executor_thread_steadily f t p w d h s rs in
      (n, es, w', e, run_on n (omega arith), s')
