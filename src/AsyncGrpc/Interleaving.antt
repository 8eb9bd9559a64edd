-- ===== src/AsyncGrpc/Interleaving.antt =====
-- Several root tasks on one completion queue with one thread: `Tick` of
-- async_grpc/async_grpc/async_grpc.cpp on the replies to any of them.
pub mod Moves
pub mod Schedules
pub mod Spawns
pub mod Subroutines
pub mod Handover
pub mod Awaits
use mathlib.Core.Option.{some-injective}
use async_sandbox.Prelude.{
  ℕ, zero, suc, ◌+◌, ◌≤◌, ◌<◌, ◌≡◌, refl, sym, ap, ◌∙◌, subst, fun_ext, ◌≢◌, Bool, true, false,
  ◌||◌, Option, none, some, List, [], ◌∷◌, ◌++◌, map, arith, ◌==◌, if◌then◌else◌, update,
  update_self, update_ne, Bool-cases, inl, inr,
}
use async_sandbox.AsyncLib.Machine.{
  FrameId, Promise, World, Action, State, done, resume, settle, run,
}
use async_sandbox.AsyncLib.Steps.{Steps, stop, next, Steps-trans, run_of_Steps}
use async_sandbox.AsyncLib.Dialogue.{Dialogue, answer, ask}
use async_sandbox.AsyncLib.Paths.{
  AwaitPath, leaf, under, Frames, Fresh, child, leaf_of, question, waiting, replied, fill,
  fill_keep, meaning, Placed,
}
use async_sandbox.AsyncLib.Nesting.Runs.{with_frames, asked, ended, Ran, finishes, blocks}
use async_sandbox.AsyncLib.Resumption.{resume_path, cleaned, settle_root}
use async_sandbox.AsyncLib.Owners.{
  below, without, Along, Apart, Apart-mono, fill-without, free-Placed, kept_not_below, Placed-Apart,
  fill-Along, fill-Fresh,
}
use async_sandbox.AsyncGrpc.CompletionQueue.{Event, deliver, tick, executor_thread}
use async_sandbox.AsyncGrpc.Serving.{deliver-fill, tick_lem, run_mono, taken, comes_to}

-- The root task that a frame works for.
abbrev pub Owner : Type 0
Owner = FrameId → Option FrameId

-- No frame that is not allocated has an owner.
abbrev pub Unowned : Owner → ℕ → Type 0
Unowned o n = (i : FrameId) → n ≤ i → o i ≡ none

module _ {V : Type 0} where
  -- Each frame of the path works for the root `r`.
  abbrev pub Owned : Owner → FrameId → AwaitPath V → FrameId → Type 0
  Owned o r (leaf q k) t = o t ≡ some r
  Owned o r (under u k π) t = (o t ≡ some r) × Owned o r π u

  -- The root task `t` has come to the dialogue: its path waits on the heap, or it has ended, and left
  -- its result unless its frame was to be destroyed.
  pub data Stands (o : Owner) (h : Frames V) (n : ℕ) (t : FrameId) (p : Promise V) (d : Dialogue V)
      : Type 0 where
    ends :
        (v : V)
        → d ≡ answer v
        → (p.destroy_on_done ≡ false
            → (h t ≡ some (record p { result = some v; state = done })) × (o t ≡ some t))
        → Stands o h n t p d
    pauses :
        (π : AwaitPath V)
        → d ≡ ask (question π) (meaning π)
        → Along π h t p (waiting π)
        → Apart π n t
        → Owned o t π t
        → Stands o h n t p d

  -- What a run for the root `t` leaves to the other tasks.
  abbrev pub Spares : FrameId → Owner → Frames V → Owner → Frames V → Type 0
  Spares t o h o' h' =
      (i s : FrameId) (x : Promise V)
      → o i ≡ some s
      → s ≢ t
      → h i ≡ some x
      → (h' i ≡ some x) × (o' i ≡ some s)

  Along-Spares :
      (π : AwaitPath V) (t s i : FrameId) (o o' : Owner) (h h' : Frames V) (p : Promise V)
      (st : State V)
      → s ≢ t
      → Spares t o h o' h'
      → Owned o s π i
      → Along π h i p st
      → Along π h' i p st × Owned o' s π i
  Along-Spares (leaf q k) t s i o o' h h' p st d sp w a = sp i s _ w d a
  Along-Spares (under u k π) t s i o o' h h' p st d sp (w, ws) (a, rest) =
      let (a', w') = sp i s _ w d a in
      let (rest', ws') = Along-Spares π t s u o o' h h' (child p.executor i _) st d sp ws rest in
      ((a', rest'), (w', ws'))

  -- The other tasks stand where they stood.
  pub Stands-Spares :
      (t s : FrameId) (o o' : Owner) (h h' : Frames V) (n n' : ℕ) (p : Promise V) (d : Dialogue V)
      → s ≢ t
      → n ≤ n'
      → Spares t o h o' h'
      → Stands o h n s p d
      → Stands o' h' n' s p d
  Stands-Spares t s o o' h h' n n' p d ne le sp (ends v e a) =
      ends v e (λ k. let (x, y) = a k in sp s s _ y ne x)
  Stands-Spares t s o o' h h' n n' p d ne le sp (pauses π e a b w) =
      let (a', w') = Along-Spares π t s s o o' h h' p (waiting π) ne sp w a in
      pauses π e a' (Apart-mono π n n' s le b) w'

  pub below_bound : (π : AwaitPath V) (n t i : ℕ) → Apart π n t → below π i ≡ true → i < n
  below_bound (leaf q k) n t i a b = cc
  below_bound (under u k π) n t i (d, lt, bt, bu, a) b = ground (arith, below_bound π n u i a)

  -- After a run the frames of the root `t` are those of its path.
  abbrev pub claimed : FrameId → AwaitPath V → Owner → Owner
  claimed t π o i = if (t == i) || below π i then some t else o i

  pub Owned-root : (π : AwaitPath V) (o : Owner) (r t : FrameId) → Owned o r π t → o t ≡ some r
  Owned-root (leaf q k) o r t w = w
  Owned-root (under u k π) o r t w = w.0

  pub Owned-below :
      (π : AwaitPath V) (o : Owner) (r t i : FrameId)
      → Owned o r π t
      → below π i ≡ true
      → o i ≡ some r
  Owned-below (leaf q k) o r t i w b = cc
  Owned-below (under u k π) o r t i (w, ws) b =
      ground (arith, Owned-root π o r u ws, Owned-below π o r u i ws)

  Owned-claimed :
      (π π' : AwaitPath V) (o : Owner) (r t : FrameId)
      → ((i : FrameId) → (t == i) || below π i ≡ true → (r == i) || below π' i ≡ true)
      → Owned (claimed r π' o) r π t
  Owned-claimed (leaf q k) π' o r t sub = ground (arith, sub t)
  Owned-claimed (under u k π) π' o r t sub =
      (ground (arith, sub t), Owned-claimed π π' o r u (λ i e. sub i (ground arith)))
