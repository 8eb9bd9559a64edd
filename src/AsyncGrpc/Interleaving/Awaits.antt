-- ===== src/AsyncGrpc/Interleaving/Awaits.antt =====
-- The `co_await` of a task that was started before (`TaskAwait` of async_lib/async_lib.hpp), beside other
-- tasks.
use async_sandbox.Prelude.{
  ◌<◌, ◌≡◌, refl, sym, ap, ◌∙◌, ◌≢◌, ◌⊎◌, none, some, List, ◌∷◌, arith, ◌==◌, update, update_self,
  update_ne, Bool-cases, inl, inr,
}
use async_sandbox.AsyncLib.Machine.{
  FrameId, ExecutorId, Promise, World, Action, go, await, State, running, destroy,
}
use async_sandbox.AsyncLib.Steps.{Steps, stop, next}
use async_sandbox.AsyncLib.Dialogue.{Dialogue, answer, ask, and_then, Seq, compile, denote}
use async_sandbox.AsyncLib.Paths.{AwaitPath, under, child, awaits, waiting, question, meaning}
use async_sandbox.AsyncLib.Nesting.Runs.{with_frames}
use async_sandbox.AsyncLib.Owners.{Along, Apart}
use async_sandbox.AsyncGrpc.Interleaving.{
  Owner, Owned, Owned-root, Owned-below, Stands, ends, pauses, Stands-Spares,
}
use async_sandbox.AsyncGrpc.Interleaving.Schedules.{Roots, AllStand}
use async_sandbox.AsyncGrpc.Interleaving.Subroutines.{
  subroutine, Beside, change-Spares, Beside-allocated,
}
use async_sandbox.AsyncGrpc.Interleaving.Handover.{
  stopped_at, stopped_not_done, Along-root, Apart-root, Along-rooted, given, Owned-given,
  given-Spares, given-Unowned, await_done, await_waits,
}

module _ {V : Type 0} where
  -- The subroutine has ended, and its frame goes.
  ended-Beside :
      (roots : Roots V) (ds : FrameId → Dialogue V) (w : World V) (j u : FrameId) (me p : Promise V)
      → (b : Beside roots ds w j me) → roots u ≡ some p
      → b.all.owner u ≡ some u
      → Beside (update roots u none) ds (destroy w u) j me
  ended-Beside roots ds w j u me p b e own = record {
    all = record {
      owner = b.all.owner;
      orphan = λ i x q. b.all.orphan i x (ground arith);
      fresh = λ i le. ground (arith, b.all.fresh i);
      unowned = b.all.unowned;
      allocated = λ i x q. b.all.allocated i x (ground arith);
      stands = λ i x q.
          Stands-Spares u i b.all.owner b.all.owner w.frames _ w.next w.next x (ds i) (ground arith)
            (omega arith) (change-Spares u b.all.owner w.frames none own)
            (b.all.stands i x (ground arith));
    };
    own = b.own;
    no_root = ground (arith, b.no_root);
    no_parent = b.no_parent;
    frame = ground (arith, b.no_root, b.frame);
  }

  abbrev awaited : World V → FrameId → Promise V → FrameId → (V → Seq V) → State V → World V
  awaited w j me u k st =
      with_frames w
        (update (update w.frames j (some (record me { state = awaits u k }))) u
          (some (child me.executor j st)))
        w.next

  -- The subroutine waits, and its frames are from now on frames of the one that awaits it.
  awaited-Stands :
      (o : Owner) (w : World V) (j u : FrameId) (me : Promise V) (k : V → Seq V) (π : AwaitPath V)
      → o j ≡ some j
      → u ≢ j
      → u < w.next
      → Along π w.frames u (subroutine me.executor) (waiting π)
      → Apart π w.next u
      → Owned o u π u
      → Stands
          (given u j o)
          (awaited w j me u k (stopped_at π)).frames
          w.next
          j
          me
          (ask (question π) (λ r. and_then (meaning π r) (λ v. denote (k v))))
  awaited-Stands o w j u me k π own ne lt a apart w' =
      pauses (under u k π) refl
        (
          ground arith,
          Along-rooted π w.frames _ u (subroutine me.executor) (child me.executor j running) refl
              (update_self (update w.frames j _) u _)
              (λ i b. ground (arith, Owned-below π o u u i w', Apart-root π w.next u apart)) a,
        )
        (ne, lt, ground (arith, Owned-below π o u u j w'), Apart-root π w.next u apart, apart)
        (rw own (ground arith), Owned-given π o u j u w')

  -- The other tasks stand where they stood.
  awaited-others :
      (o : Owner) (w : World V) (i j u : FrameId) (me x : Promise V) (k : V → Seq V) (st : State V)
      (d : Dialogue V)
      → o j ≡ some j
      → o u ≡ some u
      → i ≢ j
      → i ≢ u
      → Stands o w.frames w.next i x d
      → Stands (given u j o) (awaited w j me u k st).frames w.next i x d
  awaited-others o w i j u me x k st d oj ou nj nu a =
      let h = update w.frames j (some (record me { state = awaits u k })) in
      Stands-Spares u i o (given u j o) h _ w.next w.next x d nu (omega arith)
        (given-Spares u j o h _ ou)
        (Stands-Spares j i o o w.frames h w.next w.next x d nj (omega arith)
          (change-Spares j o w.frames _ oj) a)

  -- The root tasks when `j` has taken over from `u`.
  root_cases :
      (roots : Roots V) (u j i : FrameId) (me x : Promise V)
      → update (update roots u none) j (some me) i ≡ some x
      → ((j ≡ i) × (me ≡ x)) ⊎ ((i ≢ j) × (i ≢ u) × (roots i ≡ some x))
  root_cases roots u j i me x q = elim (Bool-cases (j == i)) [
    | inl y ↦ inl (ground arith, ground arith)
    | inr n ↦ inr (ground arith, ground arith, ground arith)
  ]

  -- The coroutine is a root task again.
  awaited-AllStand :
      (roots : Roots V) (ds : FrameId → Dialogue V) (w : World V) (j u : FrameId) (me : Promise V)
      (k : V → Seq V) (π : AwaitPath V)
      → (b : Beside roots ds w j me) → roots u ≡ some (subroutine me.executor)
      → ds u ≡ ask (question π) (meaning π)
      → Along π w.frames u (subroutine me.executor) (waiting π)
      → Apart π w.next u
      → Owned b.all.owner u π u
      → AllStand
          (update (update roots u none) j (some me))
          (update ds j (and_then (ds u) (λ v. denote (k v))))
          (awaited w j me u k (stopped_at π))
  unfolding and_then
  awaited-AllStand roots ds w j u me k π b r q a apart own =
      let o = b.all.owner in
      let ne : u ≢ j = ground (arith, b.no_root) in
      record {
        owner = given u j o;
        orphan = λ i x z. elim (root_cases roots u j i me x z) [
          | inl (y, same) ↦ ap (λ (z : Promise V). z.parent) (sym same) ∙ b.no_parent
          | inr (nj, nu, r') ↦ b.all.orphan i x r'
        ];
        fresh = λ i le. ground (arith, b.all.fresh i);
        unowned = given-Unowned u j w.next o b.all.unowned;
        allocated = λ i x z. elim (root_cases roots u j i me x z) [
          | inl (y, same) ↦ omega (arith, y, Beside-allocated w j me b)
          | inr (nj, nu, r') ↦ b.all.allocated i x r'
        ];
        stands = λ i x z. elim (root_cases roots u j i me x z) [
          | inl (y, same) ↦
              rw (← y, update_self ds j _, ← same, q)
                (awaited-Stands o w j u me k π b.own ne (b.all.allocated u _ r) a apart own)
          | inr (nj, nu, r') ↦ rw (update_ne ds j i _ (λ c. nj (sym c))) (
              awaited-others o w i j u me x k (stopped_at π) (ds i) b.own (Owned-root π o u u own)
                nj nu (b.all.stands i x r'))
        ];
      }

  -- A coroutine with no parent, which is bound to an executor and runs in a frame of its own beside root
  -- tasks that stand, awaits one of them, a subroutine that it has started on its executor. If the
  -- subroutine has ended, the coroutine goes on with its answer and the subroutine's frame is gone.
  -- If it waits, the coroutine stands as what it was and is to do: the rest of the subroutine's dialogue,
  -- and then what follows the await. In both cases the other tasks stand where they stood.
  pub await-Beside :
      (roots : Roots V) (ds : FrameId → Dialogue V) (w : World V) (j u : FrameId) (me : Promise V)
      (e : ExecutorId) (k : V → Seq V) (s : List (Action V))
      → Beside roots ds w j me
      → me.executor ≡ some e
      → roots u ≡ some (subroutine me.executor)
      → ((v : V) × (w' : World V) × (ds u ≡ answer v)
          × Steps (go j (compile (k v)) ∷ s) w' (go j (await u (λ v. compile (k v))) ∷ s) w
          × Beside (update roots u none) ds w' j me
          × (w'.frames u ≡ none))
        ⊎ ((w' : World V) × Steps s w' (go j (await u (λ v. compile (k v))) ∷ s) w
            × AllStand
                (update (update roots u none) j (some me))
                (update ds j (and_then (ds u) (λ v. denote (k v))))
                w')
  unfolding and_then
  await-Beside roots ds w j u me e k s b x r = elim (b.all.stands u (subroutine me.executor) r) [
    | ends v q a ↦
        let (f, own) = a refl in
        inl (
          v,
          destroy w u,
          q,
          next (await_done w j u me (subroutine me.executor) (λ v. compile (k v)) v b.frame f) stop,
          ended-Beside roots ds w j u me (subroutine me.executor) b r own,
          update_self w.frames u none,
        )
    | pauses π q a apart own ↦
        let w' = awaited w j me u k (stopped_at π) in
        inr (
          w',
          next
              (await_waits w j u me (λ v. compile (k v)) (stopped_at π) e b.frame
                (Along-root π w.frames u (subroutine me.executor) a) (stopped_not_done π) x)
              stop,
          awaited-AllStand roots ds w j u me k π b r q a apart own,
        )
  ]
