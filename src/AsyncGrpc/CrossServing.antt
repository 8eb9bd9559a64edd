-- ===== src/AsyncGrpc/CrossServing.antt =====
-- `Tick` of async_grpc/async_grpc/async_grpc.cpp for a task that a coroutine of another executor awaits
-- (`SpawnCrossTask` of async_lib/async_lib.hpp).
use async_sandbox.Prelude.{ℕ, ◌≡◌, refl, ap, subst, true, false, Option, some, List, arith}
use async_sandbox.AsyncLib.Machine.{FrameId, ExecutorId, Promise, World, running}
use async_sandbox.AsyncLib.Dialogue.{Dialogue, answer, ask}
use async_sandbox.AsyncLib.Paths.{leaf_of, question, meaning, replied, fill}
use async_sandbox.AsyncLib.Crossing.Results.{
  Cross, IsCross, Crosses, arrived, abroad, task_of, launched, resume-Crosses,
}
use async_sandbox.AsyncGrpc.CompletionQueue.{Event, tick}
use async_sandbox.AsyncGrpc.Serving.{last_request, last_request-append, deliver-fill, tick_lem}

module _ {V : Type 0} where
  next_of : Dialogue V → V → Dialogue V
  next_of (answer v) r = answer v
  next_of (ask q d) r = d r

  -- The reply to the last request, taken off the queue by one `Tick` of the executor on which the
  -- task runs, moves the task on to its next request, or to its end, where the coroutine of the other
  -- executor is ready there with the result.
  pub tick-Crosses :
      (x : Cross V) (f : FrameId → Option (Promise V)) (ready : ExecutorId → List FrameId)
      (w : World V) (q : V) (d : V → Dialogue V) (l : FrameId)
      → IsCross x f
      → w.inline_spawn x.home ≡ false
      → Crosses x f ready w (ask q d)
      → last_request w.requests ≡ some (l, q)
      → (r : V)
      → (n : ℕ) × (w' : World V) × (tick n (some (l, r)) w ≡ some (true, w'))
        × Crosses x f ready w' (d r)
  unfolding next_of
  tick-Crosses x f ready w q d l h i (arrived v e g s) b r = cc
  tick-Crosses x f ready w q d l h i (abroad π before e pl g last same lt fr) b r =
      let w₁ = record w { frames = fill π (launched x f) x.t (task_of x running) (replied π r) } in
      let at_leaf : l ≡ leaf_of π x.t = ground (
        arith,
        ap (λ (es : List (Event V)). last_request es) last,
        last_request-append before (leaf_of π x.t, question π),
      ) in
      let goes_on : d r ≡ meaning π r = ap (λ (y : Dialogue V). next_of y r) e in
      let (n, w', run_on, s) = resume-Crosses x f w₁ π r h i refl pl lt fr in
      rw (goes_on, at_leaf)
        (
          n,
          w',
          tick_lem n (leaf_of π x.t) r w w₁ w'
              (deliver-fill π w (launched x f) x.t (task_of x running) r g) run_on,
          subst (λ (rs : ExecutorId → List FrameId). Crosses x f rs w' (meaning π r)) same s,
        )
