-- ===== src/AsyncLib/Steps.antt =====
-- Runs of the machine of async_lib/async_lib.hpp, as a relation that composes.
use async_sandbox.Prelude.{ℕ, zero, suc, ◌≡◌, refl, some, List, [], ◌∷◌, ◌++◌, arith}
use async_sandbox.AsyncLib.Machine.{World, Action, step, run}

-- The stack `s` in the world `w` runs to the stack `s'` in the world `w'`.
pub data Steps {V : Type 0} (s' : List (Action V)) (w' : World V)
    : List (Action V) → World V → Type 0 where
  stop : Steps s' w' s' w'
  next :
      {a : Action V} {s todo : List (Action V)} {w v : World V}
      → step w a ≡ some (todo, v)
      → Steps s' w' (todo ++ s) v
      → Steps s' w' (a ∷ s) w

module _ {V : Type 0} where
  pub Steps-trans :
      {s₂ s₃ : List (Action V)} {w₂ w₃ : World V} {s₁ : List (Action V)} {w₁ : World V}
      → Steps s₂ w₂ s₁ w₁
      → Steps s₃ w₃ s₂ w₂
      → Steps s₃ w₃ s₁ w₁
  Steps-trans stop r = r
  Steps-trans (next e q) r = next e (Steps-trans q r)

  -- A run that empties the stack is a run of the machine, with as many steps as it takes.
  pub run_of_Steps :
      {w' : World V} {s : List (Action V)} {w : World V}
      → Steps [] w' s w
      → (n : ℕ) × (run n s w ≡ some ([], w'))
  unfolding run
  run_of_Steps stop = (zero, refl)
  run_of_Steps (next {a} {s} {todo} {w} {v} e q) =
      let (n, h) = run_of_Steps q in (suc n, ground (arith, e, h))
