-- ===== src/AsyncGrpc/Interleaving/Spawns.antt =====
-- A task that is spawned beside others, on an executor that resumes jobs at once (`Spawn` of
-- async_lib/async_lib.hpp, `CompletionQueueExecutor::Spawn` of async_grpc/async_grpc/async_grpc.cpp).
use async_sandbox.Prelude.{
  ℕ, suc, ◌≤◌, ◌≡◌, refl, true, none, some, List, [], ◌∷◌, arith, ◌==◌, update, update_self,
  update-update, Bool-cases, inl, inr,
}
use async_sandbox.AsyncLib.Machine.{
  FrameId, ExecutorId, Promise, World, Action, resume, run, new_frame, new_promise, spawn_task,
  executor_spawn,
}
use async_sandbox.AsyncLib.Dialogue.{Dialogue, Seq, compile, denote}
use async_sandbox.AsyncLib.Paths.{Frames}
use async_sandbox.AsyncLib.Resumption.{resume_body}
use async_sandbox.AsyncGrpc.Interleaving.{Owner, Spares, Stands, Stands-Spares}
use async_sandbox.AsyncGrpc.Interleaving.Moves.{settled}
use async_sandbox.AsyncGrpc.Interleaving.Schedules.{Roots, AllStand}

module _ {V : Type 0} where
  -- The promise of a task that was spawned on the executor `e`.
  abbrev pub spawned : ExecutorId → Seq V → Promise V
  spawned e c = record (new_promise (compile c)) { executor = some e; destroy_on_done = true }

  abbrev pub with_spawned : World V → ExecutorId → Seq V → World V
  with_spawned w e c = record w {
    frames =
        update (update w.frames w.next (some (new_promise (compile c)))) w.next
          (some (spawned e c));
    next = suc w.next;
  }

  spawn_task_lem :
      (w : World V) (e : ExecutorId) (c : Seq V)
      → w.inline_spawn e ≡ true
      → spawn_task (new_frame w (compile c)) e w.next
        ≡ some (resume w.next ∷ [], with_spawned w e c)
  unfolding spawn_task executor_spawn
  spawn_task_lem w e c h = rw (update_self w.frames w.next (some (new_promise (compile c))), h) refl

  pub spawn-Spares :
      (t : FrameId) (o o' : Owner) (h h' : Frames V)
      → o t ≡ none
      → Spares t (update o t (some t)) h o' h'
      → Spares t o h o' h'
  spawn-Spares t o o' h h' u sp i s x a ne b = sp i s x (ground (arith, u)) ne b

  pub Stands-spawned :
      (roots : Roots V) (ds : FrameId → Dialogue V) (w w' : World V) (o o' : Owner) (t s : FrameId)
      (p x : Promise V) (d : Dialogue V)
      → update roots t (some p) s ≡ some x
      → (roots s ≡ some x → Stands o w.frames w.next s x (ds s))
      → w.next ≤ w'.next
      → Spares t o w.frames o' w'.frames
      → Stands o' w'.frames w'.next t p d
      → Stands o' w'.frames w'.next s x (update ds t d s)
  Stands-spawned roots ds w w' o o' t s p x d k st le sp mine = elim (Bool-cases (t == s)) [
    | inl y ↦
        let same : t ≡ s = ground arith in
        let one : p ≡ x = ground arith in rw y (rw (← same, ← one) mine)
    | inr n ↦ rw n (
        Stands-Spares t s o o' w.frames w'.frames w.next w'.next x (ds s) (ground arith) le sp
          (st (rw n at k)))
  ]

  -- A task that is spawned on an executor that resumes jobs at once, while other root tasks wait, runs
  -- to the first request of its dialogue or to its answer, with some fuel, and the other tasks stand
  -- where they stood.
  pub spawn-AllStand :
      (roots : Roots V) (ds : FrameId → Dialogue V) (w : World V) (e : ExecutorId) (c : Seq V)
      → AllStand roots ds w
      → w.inline_spawn e ≡ true
      → (n : ℕ) × (todo : List (Action V)) × (w₁ : World V) × (w' : World V) × (spawn_task
            (new_frame w (compile c))
            e
            w.next
          ≡ some (todo, w₁))
        × (run n todo w₁ ≡ some ([], w'))
        × (w'.inline_spawn ≡ w.inline_spawn)
        × AllStand (update roots w.next (some (spawned e c))) (update ds w.next (denote c)) w'
  spawn-AllStand roots ds w e c all h =
      let t = w.next in
      let o = update all.owner t (some t) in
      let (n, w', o', q, moved) =
        settled o w (with_spawned w e c) w.frames t (spawned e c) (denote c) (omega arith) refl refl
          (omega arith) (λ i le. all.fresh i (omega arith)) (update_self all.owner t (some t))
          (λ i le. ground (arith, all.unowned i)) (λ i s x a ne b. (b, ground arith))
          (resume_body c (with_spawned w e c) w.frames t (spawned e c) []
            (update-update w.frames t _ _) (omega arith) (λ i le. all.fresh i (omega arith))) in
      let spares =
        spawn-Spares t all.owner o' w.frames w'.frames (all.unowned t (omega arith)) moved.spares in
      (
        n,
        resume t ∷ [],
        with_spawned w e c,
        w',
        spawn_task_lem w e c h,
        q,
        moved.same_spawn,
        record {
          owner = o';
          orphan = λ s x j. ground (arith, all.orphan s x);
          fresh = moved.fresh;
          unowned = moved.unowned;
          allocated = λ s x j. ground (arith, all.allocated s x, moved.grows, moved.rooted);
          stands = λ s x j.
              Stands-spawned roots ds w w' all.owner o' t s (spawned e c) x (denote c) j
                (all.stands s x) moved.grows spares moved.stands;
        },
      )
