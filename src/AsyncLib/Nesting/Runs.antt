-- ===== src/AsyncLib/Nesting/Runs.antt =====
-- Runs of one task on the machine, up to its end or to a request that is not answered yet
-- (async_lib/async_lib.hpp).
use async_sandbox.Prelude.{
  ℕ, ◌≤◌, ◌<◌, ◌≡◌, refl, subst, Option, some, List, [], ◌∷◌, ◌++◌, arith, update, update-update,
}
use async_sandbox.AsyncLib.Machine.{FrameId, Promise, World, Action, State, running, done}
use async_sandbox.AsyncLib.Steps.{Steps, Steps-trans}
use async_sandbox.AsyncLib.Dialogue.{Dialogue, answer, ask, Seq}
use async_sandbox.AsyncLib.Paths.{
  AwaitPath, Frames, Fresh, child, leaf_of, question, waiting, awaits, fill, meaning, Placed,
  fill_base, Placed-base,
}

module _ {V : Type 0} where
  -- The world with other frames.
  abbrev pub with_frames : World V → Frames V → ℕ → World V
  with_frames w f n = record w { frames = f; next = n }

  abbrev pub asked : World V → Frames V → ℕ → FrameId → V → World V
  asked w f n l q = record w { frames = f; next = n; requests = w.requests ++ (l, q) ∷ [] }

  abbrev pub ended : Frames V → FrameId → Promise V → V → Frames V
  ended f t p v = update f t (some (record p { result = some v; state = done }))

  -- The task at `t` runs from the stack `start` as the dialogue `d` says: to its end with the stack
  -- `s`, or to a request with the stack `b`. The heap is `f` but for the frames of the task.
  pub data Ran (s b start : List (Action V)) (w : World V) (f : Frames V) (t : FrameId)
      (p : Promise V) (d : Dialogue V) : Type 0 where
    finishes :
        (v : V) (n : ℕ)
        → w.next ≤ n
        → d ≡ answer v
        → Steps s (with_frames w (ended f t p v) n) start w
        → Ran s b start w f t p d
    blocks :
        (π : AwaitPath V) (n : ℕ)
        → w.next ≤ n
        → d ≡ ask (question π) (meaning π)
        → Placed π f n t p
        → Steps b (asked w (fill π f t p (waiting π)) n (leaf_of π t) (question π)) start w
        → Ran s b start w f t p d

  -- The heap while the child `u` of `t` runs, awaited with the continuation `k`.
  abbrev pub nested : Frames V → FrameId → Promise V → FrameId → (V → Seq V) → Frames V
  nested f t p u k =
      update (update f t (some (record p { state = awaits u k }))) u
        (some (child p.executor t running))

  -- More steps before a run, and after its two ends.
  pub Ran-before :
      {s b start start' : List (Action V)} (w : World V) (g : Frames V) (m : ℕ) {f : Frames V}
      {t : FrameId} {p : Promise V} {d : Dialogue V}
      → w.next ≤ m
      → Steps start' (with_frames w g m) start w
      → Ran s b start' (with_frames w g m) f t p d
      → Ran s b start w f t p d
  Ran-before w g m le q (finishes v n le' e r) = finishes v n (omega arith) e (Steps-trans q r)
  Ran-before w g m le q (blocks π n le' e pl r) = blocks π n (omega arith) e pl (Steps-trans q r)

  pub Ran-after :
      {s b : List (Action V)} (s' b' : List (Action V)) {start : List (Action V)} {w : World V}
      {f : Frames V} {t : FrameId} {p : Promise V} {d : Dialogue V}
      → ((v : V) (x : World V) → x.frames ≡ ended f t p v → Steps s' x s x)
      → ((π : AwaitPath V) (n : ℕ) (x : World V)
          → Placed π f n t p
          → x.frames ≡ fill π f t p (waiting π)
          → Steps b' x b x)
      → Ran s b start w f t p d
      → Ran s' b' start w f t p d
  Ran-after s' b' fin blo (finishes v n le e r) = finishes v n le e (Steps-trans r (fin v _ refl))
  Ran-after s' b' fin blo (blocks π n le e pl r) =
      blocks π n le e pl (Steps-trans r (blo π n _ pl refl))

  -- What the frame of the task held before does not matter.
  pub Ran-base :
      {s b start : List (Action V)} {w : World V} (f : Frames V) (t : FrameId)
      (x : Option (Promise V)) (p : Promise V) (st : State V) {d : Dialogue V}
      → Ran s b start w (update f t x) t (record p { state = st }) d
      → Ran s b start w f t p d
  Ran-base {s} {start} {w} f t x p st (finishes v n le e r) =
      finishes v n le e
        (subst (λ (g : Frames V). Steps s (with_frames w g n) start w) (update-update f t x _) r)
  Ran-base {b} {start} {w} f t x p st (blocks π n le e pl r) =
      blocks π n le e (Placed-base π f n t x p st pl) (
        subst (λ (g : Frames V). Steps b (asked w g n (leaf_of π t) (question π)) start w)
          (fill_base π f t x p st (waiting π)) r)

  abbrev pub resumed : Promise V → Promise V
  resumed p = record p { state = running }

  pub Fresh-update :
      (f : Frames V) (n m t : ℕ) (x : Option (Promise V))
      → Fresh f n
      → n ≤ m
      → t < m
      → Fresh (update f t x) m
  Fresh-update f n m t x h le lt i le' = ground (arith, h i)
