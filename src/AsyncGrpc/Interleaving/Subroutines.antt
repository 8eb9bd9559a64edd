-- ===== src/AsyncGrpc/Interleaving/Subroutines.antt =====
-- `StartSubroutine` of async_lib/async_lib.hpp, beside other tasks: a task with no parent that its
-- starter does not wait for.
use async_sandbox.Prelude.{
  suc, ◌≤◌, ◌<◌, ◌≡◌, refl, sym, ◌∙◌, ◌≢◌, fun_ext, false, Option, none, some, List, [], ◌∷◌, arith,
  update, update_self, Bool-cases, ltb, inl, inr,
}
use async_sandbox.AsyncLib.Machine.{
  FrameId, ExecutorId, Promise, World, Action, go, enter, Code, call, start_subroutine, suspended,
  running, new_frame, new_promise, step,
}
use async_sandbox.AsyncLib.Steps.{Steps, stop, next, Steps-trans}
use async_sandbox.AsyncLib.Dialogue.{Dialogue, Seq, compile, denote}
use async_sandbox.AsyncLib.Paths.{Frames, Fresh}
use async_sandbox.AsyncLib.Nesting.Runs.{with_frames}
use async_sandbox.AsyncLib.Nesting.{exec}
use async_sandbox.AsyncLib.Nesting.Calls.{enter_step, stop_at}
use async_sandbox.AsyncGrpc.Interleaving.{Owner, Spares, Stands-Spares}
use async_sandbox.AsyncGrpc.Interleaving.Moves.{stopped}
use async_sandbox.AsyncGrpc.Interleaving.Spawns.{spawn-Spares, Stands-spawned}
use async_sandbox.AsyncGrpc.Interleaving.Schedules.{Roots, AllStand}

module _ {V : Type 0} where
  -- The promise of a task that was started as a subroutine.
  abbrev pub subroutine : Option ExecutorId → Promise V
  subroutine e = record {
    destroy_on_done = false;
    executor = e;
    parent = none;
    result = none;
    state = running;
  }

  abbrev pub started : World V → FrameId → Promise V → Code V → World V
  started w j me rest =
      with_frames w
        (update (update w.frames j (some (record me { state = suspended rest }))) w.next
          (some (subroutine me.executor)))
        (suc w.next)

  start_step :
      (w : World V) (j t : FrameId) (me : Promise V) (rest c : Code V)
      → w.frames j ≡ some me
      → w.frames t ≡ some (new_promise c)
      → step w (go j (start_subroutine t rest))
        ≡ some (
          enter t ∷ enter j ∷ [],
          with_frames w
              (update
                (update w.frames j (some (record me { state = suspended rest })))
                t
                (some (record (new_promise c) { executor = me.executor })))
              w.next,
        )
  unfolding step
  start_step w j t me rest c h e = rw (h, e, step)

  started_frames :
      (f : Frames V) (j t : FrameId) (a b c d : Option (Promise V))
      → update (update (update (update f t a) j b) t c) t d ≡ update (update f j b) t d
  started_frames f j t a b c d = fun_ext λ i. ground arith

  start-Steps :
      (w : World V) (j : FrameId) (me : Promise V) (k : FrameId → Code V) (c : Seq V)
      (s : List (Action V))
      → w.frames j ≡ some me
      → j < w.next
      → Steps
          (go w.next (compile c) ∷ enter j ∷ s)
          (started w j me (k w.next))
          (go j (call (compile c) (λ t. start_subroutine t (k t))) ∷ s)
          w
  unfolding step
  start-Steps w j me k c s h lt =
      let t = w.next in
      let w₁ = new_frame w (compile c) in
      let w₂ =
        with_frames w₁
          (update (update w₁.frames j (some (record me { state = suspended (k t) }))) t
            (some (record (subroutine me.executor) { state = suspended (compile c) })))
          (suc t) in
      next {v = w₁} refl (
        next {v = w₂}
          (start_step w₁ j t me (k t) (compile c) (ground (arith, h)) (update_self w.frames t _))
          (next
            (enter_step w₂ t (subroutine me.executor) (compile c)
              (update_self (update w₁.frames j (some (record me { state = suspended (k t) }))) t _))
            (stop_at w (suc t) (started_frames w.frames j t _ _ _ _))))

  -- The frame `j` of a task with no parent runs, while the root tasks stand.
  pub record Beside (roots : Roots V) (ds : FrameId → Dialogue V) (w : World V) (j : FrameId)
      (me : Promise V) : Type 0 where
    pub all : AllStand roots ds w
    pub own : all.owner j ≡ some j
    pub no_root : roots j ≡ none
    pub no_parent : me.parent ≡ none
    pub frame : w.frames j ≡ some me

  pub Beside-allocated :
      {roots : Roots V} {ds : FrameId → Dialogue V} (w : World V) (j : FrameId) (me : Promise V)
      → Beside roots ds w j me
      → j < w.next
  Beside-allocated w j me b = elim (Bool-cases (ltb j w.next)) [
    | inl y ↦ ground arith
    | inr n ↦
        let le : w.next ≤ j = ground arith in
        let gone : none ≡ some me = sym (b.all.fresh j le) ∙ b.frame in cc
  ]

  pub change-Spares :
      (j : FrameId) (o : Owner) (h : Frames V) (x : Option (Promise V))
      → o j ≡ some j
      → Spares j o h o (update h j x)
  change-Spares j o h x own i s y a ne e = (ground arith, a)

  -- A coroutine with no parent, which runs in a frame of its own beside root tasks that stand, calls
  -- another and starts it as a subroutine. It goes on at once, when the subroutine has run to the first
  -- request of its dialogue or to its answer. The subroutine stands beside the other tasks as one with
  -- no parent, and those stand where they stood.
  pub start_subroutine-Beside :
      (roots : Roots V) (ds : FrameId → Dialogue V) (w : World V) (j : FrameId) (me : Promise V)
      (k : FrameId → Code V) (c : Seq V) (s : List (Action V))
      → Beside roots ds w j me
      → (w' : World V) × Steps
          (go j (k w.next) ∷ s)
          w'
          (go j (call (compile c) (λ t. start_subroutine t (k t))) ∷ s)
          w
        × Beside
            (update roots w.next (some (subroutine me.executor)))
            (update ds w.next (denote c))
            w'
            j
            (record me { state = running })
  start_subroutine-Beside roots ds w j me k c s b =
      let t = w.next in
      let lt = Beside-allocated w j me b in
      let susp = record me { state = suspended (k t) } in
      let wj = record w { frames = update w.frames j (some susp) } in
      let w₁ = started w j me (k t) in
      let o₁ = update b.all.owner t (some t) in
      let fr : Fresh w₁.frames (suc t) = λ i le. ground (arith, b.all.fresh i) in
      let (w₃, o', r, moved) =
        stopped o₁ wj w₁ w₁.frames t (subroutine me.executor) (denote c) (omega arith) refl
          (omega arith) fr (update_self b.all.owner t _) (λ i le. ground (arith, b.all.unowned i))
          (λ i z x a ne e. (ground arith, ground arith))
          (exec c w₁ t (subroutine me.executor) (enter j ∷ s)
            (update_self (update w.frames j (some susp)) t _) (omega arith) fr) in
      let (there, mine) =
        moved.spares j j susp (ground (arith, b.own)) (omega arith) (update_self w.frames j _) in
      let after = change-Spares j o' w₃.frames (some (record me { state = running })) mine in
      let others =
        spawn-Spares t b.all.owner o' wj.frames w₃.frames (b.all.unowned t (omega arith))
          moved.spares in
      (
        with_frames w₃ (update w₃.frames j (some (record me { state = running }))) w₃.next,
        Steps-trans (start-Steps w j me k c s b.frame lt)
            (Steps-trans r (next (enter_step w₃ j me (k t) there) stop)),
        record {
          all = record {
            owner = o';
            orphan = λ i x q. ground (arith, b.all.orphan i x);
            fresh = λ i le. ground (arith, moved.fresh i, moved.grows);
            unowned = moved.unowned;
            allocated = λ i x q. ground (arith, b.all.allocated i x, moved.grows, moved.rooted);
            stands = λ i x q.
                let ne : i ≢ j = ground (arith, b.no_root) in
                Stands-Spares j i o' o' w₃.frames _ w₃.next w₃.next x (update ds t (denote c) i) ne
                  (omega arith) after
                  (Stands-spawned roots ds wj w₃ b.all.owner o' t i (subroutine me.executor) x
                    (denote c) q
                    (λ q'.
                      Stands-Spares j i b.all.owner b.all.owner w.frames wj.frames w.next w.next x
                        (ds i) ne (omega arith)
                        (change-Spares j b.all.owner w.frames (some susp) b.own)
                        (b.all.stands i x q'))
                    moved.grows others moved.stands);
          };
          own = mine;
          no_root = ground (arith, b.no_root);
          no_parent = b.no_parent;
          frame = update_self w₃.frames j _;
        },
      )
