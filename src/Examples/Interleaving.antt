-- ===== src/Examples/Interleaving.antt =====
-- Two tasks on one completion queue: the one awaits another task, which has asked for 7, and the other
-- has asked for 8 (async_lib/async_lib.hpp, async_grpc/async_grpc/async_grpc.cpp).
use async_sandbox.Prelude.{
  ℕ, zero, suc, ◌+◌, ◌*◌, ◌≤◌, ◌<◌, ◌≡◌, refl, subst, true, Option, none, some, List, [], ◌∷◌, map,
  arith, update,
}
use mathlib.Core.Option.{some-injective}
use async_sandbox.AsyncLib.Machine.{FrameId, Promise, World, Action, run, new_frame, spawn_task}
use async_sandbox.AsyncLib.Dialogue.{Dialogue, Seq, ret, request, bind, and_then, denote, compile}
use async_sandbox.AsyncLib.Paths.{AwaitPath, leaf, under, Frames, child, awaits, waiting}
use async_sandbox.AsyncGrpc.CompletionQueue.{executor_thread}
use async_sandbox.AsyncGrpc.Interleaving.{Owner, Stands, pauses}
use async_sandbox.AsyncGrpc.Interleaving.Schedules.{
  Roots, AllStand, all_taken, all_come_to, interleaved-AllStand,
}
use async_sandbox.AsyncGrpc.Interleaving.Spawns.{spawned, spawn-AllStand}

abbrev add_one : ℕ → Seq ℕ
add_one r = ret (r + 1)

abbrev twice : ℕ → Seq ℕ
twice v = ret (v * 2)

abbrev first_task : Seq ℕ
first_task = bind (request 7 add_one) twice

abbrev second_task : Seq ℕ
second_task = request 8 add_one

abbrev path : AwaitPath ℕ
path = under 1 twice (leaf 7 add_one)

abbrev first_root : Promise ℕ
first_root = spawned 0 first_task

abbrev second_root : Promise ℕ
second_root = spawned 0 second_task

abbrev frames : Frames ℕ
frames zero = some (record first_root { state = awaits 1 twice })
frames (suc zero) = some (child (some 0) 0 (waiting path))
frames (suc (suc zero)) = some (record second_root { state = waiting (leaf 8 add_one) })
frames (suc (suc (suc i))) = none

abbrev owner : Owner
owner zero = some 0
owner (suc zero) = some 0
owner (suc (suc zero)) = some 2
owner (suc (suc (suc i))) = none

abbrev roots : Roots ℕ
roots zero = some first_root
roots (suc zero) = none
roots (suc (suc zero)) = some second_root
roots (suc (suc (suc i))) = none

abbrev dialogues : FrameId → Dialogue ℕ
dialogues t = elim t [ zero ↦ denote first_task | suc i ↦ denote second_task ]

abbrev world : World ℕ
world = record {
  frames = frames;
  next = 3;
  inline_spawn = λ e. true;
  ready = λ e. [];
  requests = (1, 7) ∷ (2, 8) ∷ [];
}

first-Stands : Stands owner frames 3 0 first_root (denote first_task)
unfolding denote and_then
first-Stands =
    pauses path refl (refl, refl) (ground arith, omega arith, refl, refl, tt) (refl, refl)

second-Stands : Stands owner frames 3 2 second_root (denote second_task)
unfolding denote
second-Stands = pauses (leaf 8 add_one) refl refl tt refl

all_stand_at :
    (t : FrameId) (p : Promise ℕ) → roots t ≡ some p → Stands owner frames 3 t p (dialogues t)
all_stand_at zero p e =
    subst (λ (x : Promise ℕ). Stands owner frames 3 0 x (denote first_task)) (some-injective _ _ e)
      first-Stands
all_stand_at (suc zero) p e = cc
all_stand_at (suc (suc zero)) p e =
    subst (λ (x : Promise ℕ). Stands owner frames 3 2 x (denote second_task)) (some-injective _ _ e)
      second-Stands
all_stand_at (suc (suc (suc i))) p e = cc

orphans : (t : FrameId) (p : Promise ℕ) → roots t ≡ some p → p.parent ≡ none
orphans zero p e = subst (λ (x : Promise ℕ). x.parent ≡ none) (some-injective _ _ e) refl
orphans (suc zero) p e = cc
orphans (suc (suc zero)) p e =
    subst (λ (x : Promise ℕ). x.parent ≡ none) (some-injective _ _ e) refl
orphans (suc (suc (suc i))) p e = cc

no_more {ℓ} :
    {A : Type ℓ} (f : ℕ → Option A)
    → ((i : ℕ) → f (suc (suc (suc i))) ≡ none)
    → (i : ℕ) → 3 ≤ i
    → f i ≡ none
no_more f h zero le = absurd (omega arith)
no_more f h (suc zero) le = absurd (omega arith)
no_more f h (suc (suc zero)) le = absurd (omega arith)
no_more f h (suc (suc (suc i))) le = h i

few_roots : (t : FrameId) (p : Promise ℕ) → roots t ≡ some p → t < 3
few_roots zero p e = omega arith
few_roots (suc zero) p e = omega arith
few_roots (suc (suc zero)) p e = omega arith
few_roots (suc (suc (suc i))) p e = cc

both-AllStand : AllStand roots dialogues world
both-AllStand = record {
  owner = owner;
  orphan = orphans;
  fresh = no_more frames (λ i. refl);
  unowned = no_more owner (λ i. refl);
  allocated = few_roots;
  stands = all_stand_at;
}

-- The second task is answered first.
abbrev schedule : List (FrameId × ℕ)
schedule = (2, 40) ∷ (0, 5) ∷ []

interleaved-AllStand_example :
    (n : ℕ) × (es : List (ℕ × ℕ)) × (w' : World ℕ) × (map (λ e. e.1) es
      ≡ all_taken dialogues schedule)
    × (executor_thread n es world ≡ some w')
    × AllStand roots (all_come_to dialogues schedule) w'
interleaved-AllStand_example =
    interleaved-AllStand roots schedule dialogues world both-AllStand
      ((second_root, refl), ((first_root, refl), tt))

spawn-AllStand_example :
    (n : ℕ) × (todo : List (Action ℕ)) × (w₁ : World ℕ) × (w' : World ℕ) × (spawn_task
        (new_frame world (compile first_task))
        0
        3
      ≡ some (todo, w₁))
    × (run n todo w₁ ≡ some ([], w'))
    × (w'.inline_spawn ≡ λ e. true)
    × AllStand
        (update roots 3 (some (spawned 0 first_task)))
        (update dialogues 3 (denote first_task))
        w'
spawn-AllStand_example = spawn-AllStand roots dialogues world 0 first_task both-AllStand refl
