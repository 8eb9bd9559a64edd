-- ===== src/AsyncGrpc/Interleaving/Moves.antt =====
-- One reply to one of several root tasks (`Tick` of async_grpc/async_grpc/async_grpc.cpp).
use async_sandbox.Prelude.{
  ℕ, ◌≤◌, ◌<◌, ◌≡◌, refl, sym, ap, ◌≢◌, true, none, some, List, [], ◌∷◌, arith, update_self,
}
use async_sandbox.AsyncLib.Machine.{FrameId, Promise, World, Action, settle, run}
use async_sandbox.AsyncLib.Steps.{Steps, stop, next, Steps-trans, run_of_Steps}
use async_sandbox.AsyncLib.Dialogue.{Dialogue, ask}
use async_sandbox.AsyncLib.Paths.{
  AwaitPath, Frames, Fresh, leaf_of, question, waiting, replied, fill, fill_keep, meaning, Placed,
}
use async_sandbox.AsyncLib.Nesting.Runs.{with_frames, asked, ended, Ran, finishes, blocks}
use async_sandbox.AsyncLib.Resumption.{resume_path, cleaned, settle_root}
use async_sandbox.AsyncLib.Owners.{
  without, Apart, fill-without, free-Placed, kept_not_below, Placed-Apart, fill-Along, fill-Fresh,
}
use async_sandbox.AsyncGrpc.CompletionQueue.{tick}
use async_sandbox.AsyncGrpc.Serving.{deliver-fill, tick_lem, run_mono, next_of}
use async_sandbox.AsyncGrpc.Interleaving.{
  Owner, Owned, Stands, ends, pauses, Spares, claimed, Owned-below, Owned-root, Owned-claimed,
  Unowned, below_bound,
}

module _ {V : Type 0} where
  -- What a run for the root task `t` does to the heap.
  pub record Moved (o : Owner) (w : World V) (t : FrameId) (p : Promise V) (d : Dialogue V)
      (o' : Owner) (w' : World V) : Type 0 where
    pub stands : Stands o' w'.frames w'.next t p d
    pub spares : Spares t o w.frames o' w'.frames
    pub fresh : Fresh w'.frames w'.next
    pub unowned : Unowned o' w'.next
    pub grows : w.next ≤ w'.next
    pub rooted : t < w'.next
    pub same_spawn : w'.inline_spawn ≡ w.inline_spawn

  -- The heap `f` has the frames of the other tasks.
  abbrev pub HasOthers : FrameId → Owner → Frames V → Frames V → Type 0
  HasOthers t o h f =
      (i s : FrameId) (x : Promise V)
      → o i ≡ some s
      → s ≢ t
      → h i ≡ some x
      → (f i ≡ some x) × (i ≢ t)

  without-HasOthers :
      (π : AwaitPath V) (o : Owner) (h : Frames V) (t : FrameId)
      → Owned o t π t
      → HasOthers t o h (without π h)
  without-HasOthers π o h t w i s x e d k =
      (ground (arith, Owned-below π o t t i w), ground (arith, Owned-root π o t t w))

  claimed-Spares :
      (π : AwaitPath V) (o : Owner) (h f h' : Frames V) (n t : FrameId) (p : Promise V)
      → HasOthers t o h f
      → Placed π f n t p
      → ((i : FrameId) (x : Promise V) → i ≢ t → f i ≡ some x → h' i ≡ some x)
      → Spares t o h (claimed t π o) h'
  claimed-Spares π o h f h' n t p w pl keep i s x e d k =
      let (y, z) = w i s x e d k in
      (keep i x z y, ground (arith, kept_not_below π f n t i p x pl y))

  below-Unowned :
      (π : AwaitPath V) (o : Owner) (n m t : ℕ)
      → Apart π m t
      → t < m
      → n ≤ m
      → Unowned o n
      → Unowned (claimed t π o) m
  below-Unowned π o n m t a lt le h i k = ground (arith, below_bound π m t i a, h i)

  -- The heap after the task at `t` has come to a request.
  waits-Moved :
      (o : Owner) (w w₁ : World V) (f : Frames V) (t : FrameId) (p : Promise V) (d : Dialogue V)
      (π : AwaitPath V) (n : ℕ)
      → w.next ≤ w₁.next
      → w₁.inline_spawn ≡ w.inline_spawn
      → t < w₁.next
      → Fresh f w₁.next
      → Unowned o w₁.next
      → HasOthers t o w.frames f
      → w₁.next ≤ n
      → d ≡ ask (question π) (meaning π)
      → Placed π f n t p
      → Moved o w t p d
          (claimed t π o)
          (asked w₁ (fill π f t p (waiting π)) n (leaf_of π t) (question π))
  waits-Moved o w w₁ f t p d π n more spawn lt fr un others le e pl = record {
    stands =
        pauses π e (fill-Along π f n t p (waiting π) pl) (Placed-Apart π f n t p pl)
          (Owned-claimed π π o t t (λ i e. e));
    spares =
        claimed-Spares π o w.frames f _ n t p others pl
          (λ i x ne z. fill_keep π f n t p x (waiting π) i pl z ne);
    fresh = fill-Fresh π f n t p (waiting π) pl (omega arith) (λ i le'. ground (arith, fr i));
    unowned = below-Unowned π o w₁.next n t (Placed-Apart π f n t p pl) (omega arith) le un;
    grows = omega arith;
    rooted = omega arith;
    same_spawn = spawn;
  }

  -- The frames of a task that nobody settles have come to a stop.
  pub stopped :
      {s start : List (Action V)} (o : Owner) (w w₁ : World V) (f : Frames V) (t : FrameId)
      (p : Promise V) (d : Dialogue V)
      → w.next ≤ w₁.next
      → w₁.inline_spawn ≡ w.inline_spawn
      → t < w₁.next
      → Fresh f w₁.next
      → o t ≡ some t
      → Unowned o w₁.next
      → HasOthers t o w.frames f
      → Ran s s start w₁ f t p d
      → (w' : World V) × (o' : Owner) × Steps s w' start w₁ × Moved o w t p d o' w'
  stopped o w w₁ f t p d more spawn lt fr own un others (finishes v n le e r) = (
    with_frames w₁ (ended f t p v) n,
    o,
    r,
    record {
      stands = ends v e (λ k. (update_self f t _, own));
      spares = λ i s x k ne z. let (y, z') = others i s x k ne z in (ground arith, k);
      fresh = λ i le'. ground (arith, fr i);
      unowned = λ i le'. un i (omega arith);
      grows = omega arith;
      rooted = omega arith;
      same_spawn = spawn;
    },
  )
  stopped o w w₁ f t p d more spawn lt fr own un others (blocks π n le e pl r) =
      (_, claimed t π o, r, waits-Moved o w w₁ f t p d π n more spawn lt fr un others le e pl)

  -- The frames of the task at `t` have come to a stop.
  pub settled :
      {start : List (Action V)} (o : Owner) (w w₁ : World V) (f : Frames V) (t : FrameId)
      (p : Promise V) (d : Dialogue V)
      → w.next ≤ w₁.next
      → w₁.inline_spawn ≡ w.inline_spawn
      → p.parent ≡ none
      → t < w₁.next
      → Fresh f w₁.next
      → o t ≡ some t
      → Unowned o w₁.next
      → HasOthers t o w.frames f
      → Ran (settle t ∷ []) [] start w₁ f t p d
      → (n : ℕ) × (w' : World V) × (o' : Owner) × (run n start w₁ ≡ some ([], w'))
        × Moved o w t p d o' w'
  settled o w w₁ f t p d more spawn h lt fr own un others (finishes v n le e r) =
      let w₂ = with_frames w₁ (ended f t p v) n in
      let (k, q) = run_of_Steps (Steps-trans r (next (settle_root w₂ f t p v refl h) stop)) in
      (
        k,
        record w₂ { frames = cleaned f t p v },
        o,
        q,
        record {
          stands = ends v e (λ k. (rw k (update_self f t _), own));
          spares = λ i s x k ne z. let (y, z') = others i s x k ne z in (ground arith, k);
          fresh = λ i le'. ground (arith, fr i);
          unowned = λ i le'. un i (omega arith);
          grows = omega arith;
          rooted = omega arith;
          same_spawn = spawn;
        },
      )
  settled o w w₁ f t p d more spawn h lt fr own un others (blocks π n le e pl r) =
      let (k, q) = run_of_Steps r in
      (
        k,
        asked w₁ (fill π f t p (waiting π)) n (leaf_of π t) (question π),
        claimed t π o,
        q,
        waits-Moved o w w₁ f t p d π n more spawn lt fr un others le e pl,
      )

  -- A `Tick` with the reply to the last request of a root task moves the task on, whatever other tasks
  -- have asked of the queue, and spares the frames of the other tasks.
  pub tick-Moved :
      (o : Owner) (t : FrameId) (p : Promise V) (w : World V) (q : V) (d : V → Dialogue V) (r : V)
      → p.parent ≡ none
      → t < w.next
      → Fresh w.frames w.next
      → Unowned o w.next
      → Stands o w.frames w.next t p (ask q d)
      → (l : FrameId) × (n : ℕ) × (w' : World V) × (o' : Owner) × ((m : ℕ)
          → n ≤ m
          → tick m (some (l, r)) w ≡ some (true, w'))
        × Moved o w t p (d r) o' w'
  unfolding next_of
  tick-Moved o t p w q d r h lt fr un (ends v e a) = cc
  tick-Moved o t p w q d r h lt fr un (pauses π e a b own) =
      let f = without π w.frames in
      let w₁ = record w { frames = fill π f t p (replied π r) } in
      let pl : Placed π f w.next t p = free-Placed π f w.next t p b (λ i k. ground arith) in
      let same : d r ≡ meaning π r = ap (λ (x : Dialogue V). next_of x r) e in
      let (n, w', o', go_on, moved) =
        settled o w w₁ f t p (meaning π r) (omega arith) refl h lt (λ i le. ground (arith, fr i))
          (Owned-root π o t t own) un (without-HasOthers π o w.frames t own)
          (resume_path π w₁ f t p r [] refl pl lt (λ i le. ground (arith, fr i))) in
      rw same (
        leaf_of π t,
        n,
        w',
        o',
        (λ m le.
            tick_lem m (leaf_of π t) r w w₁ w'
              (deliver-fill π w f t p r (sym (fill-without π w.frames w.next t p (waiting π) a b)))
              (run_mono n _ w₁ w' go_on m le)),
        moved,
      )
