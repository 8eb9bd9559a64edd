-- ===== src/Game/Program.antt =====
-- `main` and `MakeCharacterService` of game/main.cpp: the service that the game plays with.
use Prim.Native.String.{String}
use text.Mathlib.Text.{◌==◌ as str_eq}
use text.Mathlib.TextEquality.{eq_iff}
use async_sandbox.Prelude.{
  ◌≡◌, ◌≢◌, refl, ap, Bool, true, false, not, ◌&&◌, Option, none, some, List, [], ◌∷◌, ◌⊎◌, inl,
  inr, ◌>>=◌, if◌then◌else◌, Bool-cases,
}

pub data Service : Type 0 where
  memory grpc : Service

abbrev pub name : Service → String
name memory = "memory"
name grpc = "grpc"

-- With the executor of the dependencies or without one. `none` is the failed assertion; `some none` is
-- the null pointer.
unfoldable pub make_character_service : String → Bool → Option (Option Service)
make_character_service type has_executor =
    if str_eq type "memory"
    then some (some memory)
    else if str_eq type "grpc"
    then if has_executor then some (some grpc) else none
    else some none

pub data Start : Type 0 where
  -- It prints how it is used, and returns 1.
  usage : Start
  -- It plays with the service, which is read through the pointer.
  plays : Service → Start

-- The game reads its service through the pointer.
abbrev pub play_with : Option Service → Option Start
play_with none = none
play_with (some s) = some (plays s)

-- With the arguments that follow the program's name.
unfoldable pub main : List String → Option Start
unfolding make_character_service
main (type ∷ []) =
    if not (str_eq type "memory") && not (str_eq type "grpc")
    then some usage
    else (do s ← make_character_service type (str_eq type "grpc"); play_with s)
main _ = some usage

no_name :
    (type : String)
    → str_eq type "memory" ≡ false
    → str_eq type "grpc" ≡ false
    → (s : Service) → type ∷ [] ≢ name s ∷ []
no_name type n m memory e =
    let same : type ≡ "memory" = cc in
    let y : str_eq type "memory" ≡ true = (eq_iff type "memory").1 same in cc
no_name type n m grpc e =
    let same : type ≡ "grpc" = cc in
    let y : str_eq type "grpc" ≡ true = (eq_iff type "grpc").1 same in cc

-- On every command line, the program plays with a service exactly when its only argument is the
-- service's name, and otherwise prints how it is used: no assertion fails, and no service is null.
main_lem :
    (args : List String)
    → ((s : Service) × (args ≡ name s ∷ []) × (main args ≡ some (plays s)))
      ⊎ (((s : Service) → args ≢ name s ∷ []) × (main args ≡ some usage))
unfolding main make_character_service
main_lem [] = inr (λ s e. cc, refl)
main_lem (type ∷ t ∷ ts) = inr (λ s e. cc, refl)
main_lem (type ∷ []) = elim (Bool-cases (str_eq type "memory")) [
  | inl y ↦ inl (
    memory,
    ap (λ (t : String). t ∷ []) ((eq_iff type "memory").0 y),
    rw (make_character_service, y, ◌>>=◌) refl,
  )
  | inr n ↦ elim (Bool-cases (str_eq type "grpc")) [
    | inl y ↦ inl (
      grpc,
      ap (λ (t : String). t ∷ []) ((eq_iff type "grpc").0 y),
      rw (make_character_service, n, y, ◌>>=◌) refl,
    )
    | inr m ↦ inr (no_name type n m, rw (n, m) refl)
  ]
]
