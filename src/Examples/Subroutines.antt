-- ===== src/Examples/Subroutines.antt =====
-- A coroutine at the frame 0 that starts a subroutine, which asks for 7, and awaits it
-- (async_lib/async_lib.hpp).
use async_sandbox.Prelude.{
  ℕ, zero, suc, ◌+◌, ◌≤◌, ◌<◌, ◌≡◌, refl, subst, ◌⊎◌, true, Option, none, some, [], ◌∷◌, arith,
  update,
}
use mathlib.Core.Option.{some-injective}
use async_sandbox.AsyncLib.Machine.{FrameId, Promise, World, go, call, await, start_subroutine}
use async_sandbox.AsyncLib.Steps.{Steps}
use async_sandbox.AsyncLib.Dialogue.{Dialogue, answer, Seq, ret, request, and_then, compile, denote}
use async_sandbox.AsyncLib.Paths.{Frames, leaf, waiting}
use async_sandbox.AsyncGrpc.Interleaving.{Owner, Stands, pauses}
use async_sandbox.AsyncGrpc.Interleaving.Schedules.{Roots, AllStand}
use async_sandbox.AsyncGrpc.Interleaving.Subroutines.{subroutine, Beside, start_subroutine-Beside}
use async_sandbox.AsyncGrpc.Interleaving.Awaits.{await-Beside}

abbrev add_one : ℕ → Seq ℕ
add_one r = ret (r + 1)

abbrev asks : Seq ℕ
asks = request 7 add_one

abbrev starter : Promise ℕ
starter = record (subroutine (some 0)) { destroy_on_done = true }

abbrev world_of : Frames ℕ → ℕ → World ℕ
world_of f n = record {
  frames = f;
  next = n;
  inline_spawn = λ e. true;
  ready = λ e. [];
  requests = [];
}

abbrev no_roots : Roots ℕ
no_roots t = none

abbrev no_dialogues : FrameId → Dialogue ℕ
no_dialogues t = answer 0

abbrev alone : Frames ℕ
alone zero = some starter
alone (suc i) = none

abbrev alone_owner : Owner
alone_owner zero = some 0
alone_owner (suc i) = none

from_one :
    {A : Type 0} (f : ℕ → Option A) → ((i : ℕ) → f (suc i) ≡ none) → (i : ℕ) → 1 ≤ i → f i ≡ none
from_one f h zero le = absurd (omega arith)
from_one f h (suc i) le = h i

alone-Beside : Beside no_roots no_dialogues (world_of alone 1) 0 starter
alone-Beside = record {
  all = record {
    owner = alone_owner;
    orphan = λ t p e. cc;
    fresh = from_one alone (λ i. refl);
    unowned = from_one alone_owner (λ i. refl);
    allocated = λ t p e. cc;
    stands = λ t p e. cc;
  };
  own = refl;
  no_root = refl;
  no_parent = refl;
  frame = refl;
}

start_subroutine-Beside_example :
    (w' : World ℕ) × Steps
      (go 0 (await 1 (λ v. compile (add_one v))) ∷ [])
      w'
      (go 0 (call (compile asks) (λ t. start_subroutine t (await t (λ v. compile (add_one v)))))
        ∷ [])
      (world_of alone 1)
    × Beside
        (update no_roots 1 (some (subroutine (some 0))))
        (update no_dialogues 1 (denote asks))
        w'
        0
        starter
start_subroutine-Beside_example =
    start_subroutine-Beside no_roots no_dialogues (world_of alone 1) 0 starter
      (λ t. await t (λ v. compile (add_one v))) asks [] alone-Beside

-- The subroutine waits at the frame 1.
abbrev pair : Frames ℕ
pair zero = some starter
pair (suc zero) = some (record (subroutine (some 0)) { state = waiting (leaf 7 add_one) })
pair (suc (suc i)) = none

abbrev pair_owner : Owner
pair_owner zero = some 0
pair_owner (suc zero) = some 1
pair_owner (suc (suc i)) = none

abbrev one_root : Roots ℕ
one_root zero = none
one_root (suc zero) = some (subroutine (some 0))
one_root (suc (suc i)) = none

abbrev one_dialogue : FrameId → Dialogue ℕ
one_dialogue t = denote asks

from_two :
    {A : Type 0} (f : ℕ → Option A)
    → ((i : ℕ) → f (suc (suc i)) ≡ none)
    → (i : ℕ) → 2 ≤ i
    → f i ≡ none
from_two f h zero le = absurd (omega arith)
from_two f h (suc zero) le = absurd (omega arith)
from_two f h (suc (suc i)) le = h i

the_root :
    (P : FrameId → Promise ℕ → Type 0)
    → P 1 (subroutine (some 0))
    → (t : FrameId) (p : Promise ℕ) → one_root t ≡ some p
    → P t p
the_root P h zero p e = cc
the_root P h (suc zero) p e = subst (λ (x : Promise ℕ). P 1 x) (some-injective _ _ e) h
the_root P h (suc (suc i)) p e = cc

asks-Stands : Stands pair_owner pair 2 1 (subroutine (some 0)) (denote asks)
unfolding denote
asks-Stands = pauses (leaf 7 add_one) refl refl tt refl

pair-Beside : Beside one_root one_dialogue (world_of pair 2) 0 starter
pair-Beside = record {
  all = record {
    owner = pair_owner;
    orphan = the_root (λ t p. p.parent ≡ none) refl;
    fresh = from_two pair (λ i. refl);
    unowned = from_two pair_owner (λ i. refl);
    allocated = the_root (λ t p. t < 2) (omega arith);
    stands = the_root (λ t p. Stands pair_owner pair 2 t p (denote asks)) asks-Stands;
  };
  own = refl;
  no_root = refl;
  no_parent = refl;
  frame = refl;
}

await-Beside_example :
    ((v : ℕ) × (w' : World ℕ) × (one_dialogue 1 ≡ answer v)
      × Steps
          (go 0 (compile (add_one v)) ∷ [])
          w'
          (go 0 (await 1 (λ v. compile (add_one v))) ∷ [])
          (world_of pair 2)
      × Beside (update one_root 1 none) one_dialogue w' 0 starter
      × (w'.frames 1 ≡ none))
    ⊎ ((w' : World ℕ) × Steps [] w'
          (go 0 (await 1 (λ v. compile (add_one v))) ∷ [])
          (world_of pair 2)
        × AllStand
            (update (update one_root 1 none) 0 (some starter))
            (update one_dialogue 0 (and_then (one_dialogue 1) (λ v. denote (add_one v))))
            w')
await-Beside_example =
    await-Beside one_root one_dialogue (world_of pair 2) 0 1 starter 0 add_one [] pair-Beside refl
      refl
