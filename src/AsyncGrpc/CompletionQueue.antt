-- ===== src/AsyncGrpc/CompletionQueue.antt =====
-- async_grpc/async_grpc/async_grpc.hpp and async_grpc.cpp: `Tick` takes an event off the queue,
-- hands its flag to the awaitable that it is the tag of, and resumes the job. The queue is gRPC's:
-- `Next` is an argument, `none` once the queue is shut down and drained.
use async_sandbox.Prelude.{
  ℕ, Bool, true, false, Option, none, some, List, [], ◌∷◌, ◌>>=◌, if◌then◌else◌,
}
use async_sandbox.AsyncLib.Machine.{
  FrameId, Promise, State, blocked, suspended, World, Action, resume, set_state, run,
}

abbrev pub Event : Type 0 → Type 0
Event V = FrameId × V

module _ {V : Type 0} where
  -- `job->ok = ok`, and what `CompletionQueueAwaitable::await_resume` makes of it
  unfoldable pub store_reply : World V → FrameId → Promise V → V → State V → Option (World V)
  store_reply w t p r (blocked q k) = some (set_state w t p (suspended (k r)))
  store_reply w t p r _ = none

  unfoldable pub deliver : World V → Event V → Option (World V)
  unfolding store_reply
  deliver w (t, r) = do p ← w.frames t; store_reply w t p r p.state

  abbrev pub all_returned : List (Action V) × World V → Option (World V)
  all_returned ([], w) = some w
  all_returned (a ∷ s, w) = none

  -- `Tick`: false when the queue is shut down. The stack runs for at most `fuel` steps.
  unfoldable pub tick : ℕ → Option (Event V) → World V → Option (Bool × World V)
  unfolding deliver
  tick fuel none w = some (false, w)
  tick fuel (some (t, r)) w = do
    w₁ ← deliver w (t, r)
    end ← run fuel (resume t ∷ []) w₁
    w₂ ← all_returned end
    some (true, w₂)

  -- `while (Tick(cq)) {}` of an executor's only thread, over the events that the queue has until it
  -- is shut down and drained. The thread ends when `Tick` gives false, with the events that are left
  -- on the queue; behind the last event a `Tick` that gives true would not end the thread.
  unfoldable pub executor_thread : ℕ → List (Event V) → World V → Option (World V)
  unfolding tick
  executor_thread fuel [] w = do (more, w₁) ← tick fuel none w; if more then none else some w₁
  executor_thread fuel (e ∷ es) w = do
    (more, w₁) ← tick fuel (some e) w
    if more then executor_thread fuel es w₁ else some w₁
