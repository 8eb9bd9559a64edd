-- ===== src/AsyncLib/Paths.antt =====
-- A root task that waits: the frames from it down to the frame that waits for a reply, each
-- awaiting the next (async_lib/async_lib.hpp, `PromiseBase::parent` and `TaskAwait`).
use async_sandbox.Prelude.{
  ℕ, ◌≤◌, ◌<◌, ◌≡◌, refl, ap, ◌≢◌, false, Option, none, some, arith, update, update-update,
}
use async_sandbox.AsyncLib.Machine.{
  FrameId, ExecutorId, Promise, State, awaiting, blocked, suspended, running, is_done,
}
use async_sandbox.AsyncLib.Dialogue.{Dialogue, Seq, and_then, denote, compile}

pub data AwaitPath (V : Type 0) : Type 0 where
  leaf : V → (V → Seq V) → AwaitPath V
  under : FrameId → (V → Seq V) → AwaitPath V → AwaitPath V

abbrev pub Frames : Type 0 → Type 0
Frames V = FrameId → Option (Promise V)

-- No frame was allocated from `n` on.
abbrev pub Fresh : {V : Type 0} → Frames V → ℕ → Type 0
Fresh f n = (i : ℕ) → n ≤ i → f i ≡ none

module _ {V : Type 0} where
  -- A task that its parent `t` has started.
  abbrev pub child : Option ExecutorId → FrameId → State V → Promise V
  child e t s = record {
    destroy_on_done = false;
    executor = e;
    parent = some t;
    result = none;
    state = s;
  }

  abbrev pub leaf_of : AwaitPath V → FrameId → FrameId
  leaf_of (leaf q k) t = t
  leaf_of (under u k π) t = leaf_of π u

  abbrev pub question : AwaitPath V → V
  question (leaf q k) = q
  question (under u k π) = question π

  -- The leaf before and after its reply.
  abbrev pub waiting : AwaitPath V → State V
  waiting (leaf q k) = blocked q (λ r. compile (k r))
  waiting (under u k π) = waiting π

  abbrev pub replied : AwaitPath V → V → State V
  replied (leaf q k) r = suspended (compile (k r))
  replied (under u k π) r = replied π r

  abbrev pub awaits : FrameId → (V → Seq V) → State V
  awaits u k = awaiting u (λ v. compile (k v))

  -- The heap `f` with the frames of the path, from the root `t` with the promise `p` on.
  abbrev pub fill : AwaitPath V → Frames V → FrameId → Promise V → State V → Frames V
  fill (leaf q k) f t p st = update f t (some (record p { state = st }))
  fill (under u k π) f t p st =
      fill π (update f t (some (record p { state = awaits u k }))) u (child p.executor t running) st

  -- What follows a reply.
  abbrev pub meaning : AwaitPath V → V → Dialogue V
  meaning (leaf q k) r = denote (k r)
  meaning (under u k π) r = and_then (meaning π r) (λ v. denote (k v))

  -- The frames of the path are free in `f`, distinct and below `n`.
  abbrev pub Placed : AwaitPath V → Frames V → ℕ → FrameId → Promise V → Type 0
  Placed (leaf q k) f n t p = Unit
  Placed (under u k π) f n t p =
      (f u ≡ none)
      × (u ≢ t)
      × (u < n)
      × Placed π (update f t (some (record p { state = awaits u k }))) n u
          (child p.executor t running)

  -- A frame beside the path is left alone.
  pub fill_keep :
      (π : AwaitPath V) (f : Frames V) (n t : ℕ) (p x : Promise V) (st : State V) (i : ℕ)
      → Placed π f n t p
      → f i ≡ some x
      → i ≢ t
      → fill π f t p st i ≡ some x
  fill_keep (leaf q k) f n t p x st i h e d = ground arith
  fill_keep (under u k π) f n t p x st i h e d =
      fill_keep π (update f t (some (record p { state = awaits u k }))) n u
        (child p.executor t running) x st i h.3 (ground arith) (ground arith)

  -- The root of a path that waits is not done.
  pub fill_root :
      (π : AwaitPath V) (f : Frames V) (n t : ℕ) (p : Promise V)
      → Placed π f n t p
      → (st : State V) × (fill π f t p (waiting π) t ≡ some (record p { state = st }))
        × (is_done st ≡ false)
  fill_root (leaf q k) f n t p h = (waiting (leaf q k), ground arith, refl)
  fill_root (under u k π) f n t p h = (
    awaits u k,
    fill_keep π _ n u _ (record p { state = awaits u k }) (waiting π) t h.3 (ground arith)
        (ground arith),
    refl,
  )

  -- What the root's frame held before does not matter.
  pub fill_base :
      (π : AwaitPath V) (f : Frames V) (t : ℕ) (x : Option (Promise V)) (p : Promise V)
      (s st : State V)
      → fill π (update f t x) t (record p { state = s }) st ≡ fill π f t p st
  fill_base (leaf q k) f t x p s st = update-update f t x _
  fill_base (under u k π) f t x p s st =
      ap (λ (g : Frames V). fill π g u (child p.executor t running) st) (update-update f t x _)

  pub Placed-base :
      (π : AwaitPath V) (f : Frames V) (n t : ℕ) (x : Option (Promise V)) (p : Promise V)
      (s : State V)
      → Placed π (update f t x) n t (record p { state = s })
      → Placed π f n t p
  Placed-base (leaf q k) f n t x p s h = tt
  Placed-base (under u k π) f n t x p s h = (
    ground arith,
    h.1,
    h.2,
    (rw (update-update f t x (some (record p { state = awaits u k }))) at (h.3)),
  )

  -- The leaf is in the state that it was given, and can be given another.
  pub fill_leaf :
      (π : AwaitPath V) (f : Frames V) (t : ℕ) (p : Promise V) (st : State V)
      → (x : Promise V) × (fill π f t p st (leaf_of π t) ≡ some (record x { state = st }))
        × ((s : State V)
            → update (fill π f t p st) (leaf_of π t) (some (record x { state = s }))
              ≡ fill π f t p s)
  fill_leaf (leaf q k) f t p st = (p, ground arith, λ s. update-update f t _ _)
  fill_leaf (under u k π) f t p st = fill_leaf π _ u _ st
