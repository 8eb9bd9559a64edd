-- ===== src/AsyncGrpc/Interleaving/Schedules.antt =====
-- Replies to several root tasks, in any order (`SpawnExecutorThread` of
-- async_grpc/async_grpc/async_grpc.cpp).
use async_sandbox.Prelude.{
  ℕ, ◌+◌, ◌≤◌, ◌<◌, ◌≡◌, refl, sym, ap, ◌∙◌, subst, fun_ext, true, Option, none, some, List, [],
  ◌∷◌, map, arith, ◌==◌, if◌then◌else◌, Bool-cases, inl, inr, ◌⊎◌,
}
use async_sandbox.AsyncLib.Machine.{FrameId, Promise, World}
use async_sandbox.AsyncLib.Dialogue.{Dialogue, answer, ask}
use async_sandbox.AsyncLib.Paths.{Fresh}
use async_sandbox.AsyncGrpc.CompletionQueue.{Event, tick, executor_thread}
use async_sandbox.AsyncGrpc.Serving.{comes_to}
use async_sandbox.AsyncGrpc.Interleaving.{Owner, Unowned, Stands, Stands-Spares}
use async_sandbox.AsyncGrpc.Interleaving.Moves.{Moved, tick-Moved}

-- The root tasks, with the promises that they were spawned with.
abbrev pub Roots : Type 0 → Type 0
Roots V = FrameId → Option (Promise V)

module _ {V : Type 0} where
  -- Each root task has come to its dialogue.
  pub record AllStand (roots : Roots V) (ds : FrameId → Dialogue V) (w : World V) : Type 0 where
    pub owner : Owner
    pub orphan : (t : FrameId) (p : Promise V) → roots t ≡ some p → p.parent ≡ none
    pub fresh : Fresh w.frames w.next
    pub unowned : Unowned owner w.next
    pub allocated : (t : FrameId) (p : Promise V) → roots t ≡ some p → t < w.next
    pub stands :
        (t : FrameId) (p : Promise V) → roots t ≡ some p → Stands owner w.frames w.next t p (ds t)

  abbrev pub advance : Dialogue V → V → Dialogue V
  advance (answer v) r = answer v
  advance (ask q d) r = d r

  -- The replies of a schedule that are for the root `t`.
  abbrev pub replies_to : FrameId → List (FrameId × V) → List V
  replies_to t [] = []
  replies_to t ((s, r) ∷ rest) = if s == t then r ∷ replies_to t rest else replies_to t rest

  abbrev pub advanced : (FrameId → Dialogue V) → FrameId → V → FrameId → Dialogue V
  advanced ds t r s = if t == s then advance (ds s) r else ds s

  -- The replies of a schedule that reach a task which waits, in order.
  abbrev pub all_taken : (FrameId → Dialogue V) → List (FrameId × V) → List V
  all_taken ds [] = []
  all_taken ds ((t, r) ∷ rest) = elim (ds t) [
    | answer v ↦ all_taken ds rest
    | ask q d ↦ r ∷ all_taken (advanced ds t r) rest
  ]

  comes_to-advance :
      (d : Dialogue V) (r : V) (rs : List V) → comes_to (advance d r) rs ≡ comes_to d (r ∷ rs)
  comes_to-advance (answer v) r rs = refl
  comes_to-advance (ask q d) r rs = refl

  comes_to-advanced :
      (ds : FrameId → Dialogue V) (t s : FrameId) (r : V) (rest : List (FrameId × V))
      → comes_to (advanced ds t r s) (replies_to s rest)
        ≡ comes_to (ds s) (replies_to s ((t, r) ∷ rest))
  comes_to-advanced ds t s r rest = elim (Bool-cases (t == s)) [
    | inl y ↦ rw y (comes_to-advance (ds s) r (replies_to s rest))
    | inr n ↦ rw n refl
  ]

  abbrev pub AreRoots : Roots V → List (FrameId × V) → Type 0
  AreRoots roots [] = Unit
  AreRoots roots ((t, r) ∷ rest) = ((p : Promise V) × (roots t ≡ some p)) × AreRoots roots rest

  Stands-advanced :
      (roots : Roots V) (ds : FrameId → Dialogue V) (w w' : World V) (o o' : Owner) (t s : FrameId)
      (p x : Promise V) (d : Dialogue V) (r : V)
      → roots t ≡ some p
      → roots s ≡ some x
      → advance (ds t) r ≡ d
      → Stands o w.frames w.next s x (ds s)
      → Moved o w t p d o' w'
      → Stands o' w'.frames w'.next s x (advanced ds t r s)
  Stands-advanced roots ds w w' o o' t s p x d r a b e st moved = elim (Bool-cases (t == s)) [
    | inl y ↦
        let same : t ≡ s = ground arith in
        let one : p ≡ x = cc in rw y (rw (← same) (rw (e, ← one) moved.stands))
    | inr n ↦ rw n (
        Stands-Spares t s o o' w.frames w'.frames w.next w'.next x (ds s) (ground arith) moved.grows
          moved.spares st)
  ]

  reply-AllStand :
      (roots : Roots V) (ds : FrameId → Dialogue V) (w : World V) (t : FrameId) (p : Promise V)
      (q : V) (d : V → Dialogue V) (r : V)
      → AllStand roots ds w
      → roots t ≡ some p
      → ds t ≡ ask q d
      → (l : FrameId) × (n : ℕ) × (w' : World V) × ((m : ℕ)
          → n ≤ m
          → tick m (some (l, r)) w ≡ some (true, w'))
        × AllStand roots (advanced ds t r) w'
  reply-AllStand roots ds w t p q d r all k e =
      let (l, n, w', o', run_on, moved) =
        tick-Moved all.owner t p w q d r (all.orphan t p k) (all.allocated t p k) all.fresh
          all.unowned (rw (← e) (all.stands t p k)) in
      (
        l,
        n,
        w',
        run_on,
        record {
          owner = o';
          orphan = all.orphan;
          fresh = moved.fresh;
          unowned = moved.unowned;
          allocated = λ s x j. omega (arith, all.allocated s x j, moved.grows);
          stands = λ s x j.
              Stands-advanced roots ds w w' all.owner o' t s p x (d r) r k j (rw e refl)
                (all.stands s x j) moved;
        },
      )

  Dialogue-cases :
      (x : Dialogue V)
      → ((v : V) × (x ≡ answer v)) ⊎ ((q : V) × (d : V → Dialogue V) × (x ≡ ask q d))
  Dialogue-cases (answer v) = inl (v, refl)
  Dialogue-cases (ask q d) = inr (q, d, refl)

  -- A task that has ended takes no reply.
  advanced_answer :
      (ds : FrameId → Dialogue V) (t : FrameId) (v r : V) → ds t ≡ answer v → advanced ds t r ≡ ds
  advanced_answer ds t v r e = fun_ext λ s. elim (Bool-cases (t == s)) [
    | inl y ↦
        let same : ds s ≡ answer v = subst (λ (i : FrameId). ds i ≡ answer v) (ground arith) e in
        rw (y, same) refl
    | inr n ↦ rw n refl
  ]

  -- After a schedule each task has come to what its own replies say.
  abbrev pub all_come_to : (FrameId → Dialogue V) → List (FrameId × V) → FrameId → Dialogue V
  all_come_to ds schedule t = comes_to (ds t) (replies_to t schedule)

  comes_to_nothing : (x : Dialogue V) → comes_to x [] ≡ x
  comes_to_nothing (answer v) = refl
  comes_to_nothing (ask q d) = refl

  comes_to_all :
      (ds : FrameId → Dialogue V) (t : FrameId) (r : V) (rest : List (FrameId × V))
      → all_come_to (advanced ds t r) rest ≡ all_come_to ds ((t, r) ∷ rest)
  comes_to_all ds t r rest = fun_ext λ s. comes_to-advanced ds t s r rest

  interleaved_steadily :
      (roots : Roots V) (schedule : List (FrameId × V)) (ds : FrameId → Dialogue V) (w : World V)
      → AllStand roots ds w
      → AreRoots roots schedule
      → (n : ℕ) × (es : List (Event V)) × (w' : World V) × (map (λ e. e.1) es
          ≡ all_taken ds schedule)
        × ((m : ℕ) → n ≤ m → executor_thread m es w ≡ some w')
        × AllStand roots (all_come_to ds schedule) w'
  unfolding executor_thread
  interleaved_steadily roots [] ds w all are = (
    0,
    [],
    w,
    refl,
    λ m le. refl,
    subst (λ (x : FrameId → Dialogue V). AllStand roots x w)
        (fun_ext λ s. sym (comes_to_nothing (ds s))) all,
  )
  interleaved_steadily roots ((t, r) ∷ rest) ds w all ((p, k), are) = elim (Dialogue-cases (ds t)) [
    | inl (v, e) ↦
        let (n, es, w', e', run_on, all') = interleaved_steadily roots rest ds w all are in
        (
          n,
          es,
          w',
          rw (all_taken, e) e',
          run_on,
          subst (λ (x : FrameId → Dialogue V). AllStand roots x w')
              (ap (λ (x : FrameId → Dialogue V). all_come_to x rest)
                  (sym (advanced_answer ds t v r e))
                ∙ comes_to_all ds t r rest)
              all',
        )
    | inr (q, d, e) ↦
        let (l, n₁, w₁, run_on, all₁) = reply-AllStand roots ds w t p q d r all k e in
        let (n₂, es, w₂, e₂, run_on₂, all₂) =
          interleaved_steadily roots rest (advanced ds t r) w₁ all₁ are in
        (
          n₁ + n₂,
          (l, r) ∷ es,
          w₂,
          rw (all_taken, e) (ap (λ (x : List V). r ∷ x) e₂),
          λ m le. rw (run_on m (omega arith)) (run_on₂ m (omega arith)),
          subst (λ (x : FrameId → Dialogue V). AllStand roots x w₂) (comes_to_all ds t r rest) all₂,
        )
  ]

  -- Several root tasks wait on one completion queue with one thread, and the replies to them come in any
  -- order: there are events with the replies, in their order but for those to tasks that have ended,
  -- on which the thread runs to the end with some fuel, and then each task has come to what its
  -- dialogue comes to on its own replies, whatever the other tasks have done in between.
  pub interleaved-AllStand :
      (roots : Roots V) (schedule : List (FrameId × V)) (ds : FrameId → Dialogue V) (w : World V)
      → AllStand roots ds w
      → AreRoots roots schedule
      → (n : ℕ) × (es : List (Event V)) × (w' : World V) × (map (λ e. e.1) es
          ≡ all_taken ds schedule)
        × (executor_thread n es w ≡ some w')
        × AllStand roots (all_come_to ds schedule) w'
  interleaved-AllStand roots schedule ds w all are =
      let (n, es, w', e, run_on, all') = interleaved_steadily roots schedule ds w all are in
      (n, es, w', e, run_on n (omega arith), all')
