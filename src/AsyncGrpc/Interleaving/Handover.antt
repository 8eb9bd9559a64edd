-- ===== src/AsyncGrpc/Interleaving/Handover.antt =====
-- The frames that pass from a task to the one that awaits it, and the steps of `TaskAwait` for a task
-- that was started before (async_lib/async_lib.hpp).
use async_sandbox.Prelude.{
  ℕ, ◌≡◌, refl, ◌∙◌, true, false, Option, none, some, [], ◌∷◌, arith, ◌==◌, update, ==_refl,
  if◌then◌else◌,
}
use async_sandbox.AsyncLib.Machine.{
  FrameId, ExecutorId, Promise, World, go, Code, await, awaiting, State, running, done, is_done,
  destroy, step,
}
use async_sandbox.AsyncLib.Paths.{AwaitPath, leaf, under, Frames, child, awaits, waiting}
use async_sandbox.AsyncLib.Nesting.Runs.{with_frames}
use async_sandbox.AsyncLib.Owners.{below, Along, Apart}
use async_sandbox.AsyncGrpc.Interleaving.{Owner, Owned, Unowned, Spares}
use async_sandbox.AsyncGrpc.Interleaving.Subroutines.{subroutine}

-- The frames of the root `u` become those of `j`.
abbrev pub reassign : FrameId → FrameId → Option FrameId → Option FrameId
reassign u j none = none
reassign u j (some s) = if u == s then some j else some s

abbrev pub given : FrameId → FrameId → Owner → Owner
given u j o i = reassign u j (o i)

pub given-Unowned : (u j n : ℕ) (o : Owner) → Unowned o n → Unowned (given u j o) n
given-Unowned u j n o un i le = rw (un i le) refl

module _ {V : Type 0} where
  -- The state of the first frame of a path.
  abbrev pub stopped_at : AwaitPath V → State V
  stopped_at (leaf q k) = waiting (leaf q k)
  stopped_at (under u k π) = awaits u k

  pub stopped_not_done : (π : AwaitPath V) → is_done (stopped_at π) ≡ false
  stopped_not_done (leaf q k) = refl
  stopped_not_done (under u k π) = refl

  pub Along-root :
      (π : AwaitPath V) (h : Frames V) (t : FrameId) (p : Promise V)
      → Along π h t p (waiting π)
      → h t ≡ some (record p { state = stopped_at π })
  Along-root (leaf q k) h t p a = a
  Along-root (under u k π) h t p a = a.0

  pub Apart-root : (π : AwaitPath V) (n t : ℕ) → Apart π n t → below π t ≡ false
  Apart-root (leaf q k) n t a = refl
  Apart-root (under u k π) n t (d, lt, bt, bu, a) = ground arith

  -- The frames behind the root are as they were.
  Along-same :
      (π : AwaitPath V) (h h' : Frames V) (t : FrameId) (p : Promise V) (st : State V)
      → h' t ≡ h t
      → ((i : FrameId) → below π i ≡ true → h' i ≡ h i)
      → Along π h t p st
      → Along π h' t p st
  Along-same (leaf q k) h h' t p st e same a = e ∙ a
  Along-same (under u k π) h h' t p st e same (a, rest) = (
    e ∙ a,
    Along-same π h h' u (child p.executor t running) st (same u (ground arith))
        (λ i b. same i (ground arith)) rest,
  )

  pub Along-rooted :
      (π : AwaitPath V) (h h' : Frames V) (t : FrameId) (p p' : Promise V)
      → p'.executor ≡ p.executor
      → h' t ≡ some (record p' { state = stopped_at π })
      → ((i : FrameId) → below π i ≡ true → h' i ≡ h i)
      → Along π h t p (waiting π)
      → Along π h' t p' (waiting π)
  Along-rooted (leaf q k) h h' t p p' x e same a = e
  Along-rooted (under u k π) h h' t p p' x e same (a, rest) = (
    e,
    rw x (
        Along-same π h h' u (child p.executor t running) (waiting π) (same u (ground arith))
          (λ i b. same i (ground arith)) rest),
  )

  pub Owned-given :
      (π : AwaitPath V) (o : Owner) (u j t : FrameId) → Owned o u π t → Owned (given u j o) j π t
  Owned-given (leaf q k) o u j t w = rw w (ground arith)
  Owned-given (under v k π) o u j t (w, ws) = (rw w (ground arith), Owned-given π o u j v ws)

  pub given-Spares :
      (u j : FrameId) (o : Owner) (h : Frames V) (x : Option (Promise V))
      → o u ≡ some u
      → Spares u o h (given u j o) (update h u x)
  given-Spares u j o h x own i s y a ne e = (ground arith, rw a (ground arith))

  pub await_done :
      (w : World V) (j u : FrameId) (me p : Promise V) (k : V → Code V) (v : V)
      → w.frames j ≡ some me
      → w.frames u ≡ some (record p { result = some v; state = done })
      → step w (go j (await u k)) ≡ some (go j (k v) ∷ [], destroy w u)
  unfolding step
  await_done w j u me p k v h e = rw (h, e, step)

  pub await_waits :
      (w : World V) (j u : FrameId) (me : Promise V) (k : V → Code V) (st : State V)
      (e : ExecutorId)
      → w.frames j ≡ some me
      → w.frames u ≡ some (record (subroutine me.executor) { state = st })
      → is_done st ≡ false
      → me.executor ≡ some e
      → step w (go j (await u k))
        ≡ some (
          [],
          with_frames w
              (update
                (update w.frames j (some (record me { state = awaiting u k })))
                u
                (some (child me.executor j st)))
              w.next,
        )
  unfolding step
  await_waits w j u me k st e h g d x = rw (h, g, step, d, x, ==_refl e)
