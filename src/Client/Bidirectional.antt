-- ===== src/Client/Bidirectional.antt =====
-- The bidirectional stream call of async_grpc/client/main.cpp. It holds the task of its read subroutine
-- from the start of the call on, and awaits it at the end of the handler only.
pub mod Sessions
use async_sandbox.Prelude.{
  ℕ, suc, ◌≡◌, refl, Bool, true, some, List, [], ◌∷◌, length, if◌then◌else◌, Bool-cases, inl, inr,
  arith,
}
use async_sandbox.AsyncGrpc.Status.{Status, is_ok}
use async_sandbox.Server.EchoService.{
  Command, message, start, stop, Echo, bidirectional_echo, process_all, process,
}
use async_sandbox.Client.Outcomes.{all_work}

pub data Step : Type 0 where
  write : Command → Step
  -- in milliseconds
  wait : ℕ → Step
  writes_done : Step

-- How the handler ends. A `co_return` that destroys a task with a promise is a failed assertion.
pub data End : Type 0 where
  not_started aborted finished : End

abbrev pub steps : List Step
steps = write (message "guten tag" 1000) ∷ write start ∷ wait 3500 ∷ write stop ∷ writes_done ∷ []

module _ (works : ℕ → Bool) where
  -- The steps from the operation `n` on: those that worked, and the end.
  unfoldable pub take_steps : ℕ → List Step → List Step × End
  take_steps n [] = ([], finished)
  take_steps n (s ∷ ss) =
      let (taken, end) = take_steps (suc n) ss in
      if works n then (s ∷ taken, end) else ([], aborted)

  unfoldable pub bidirectional_stream_echo : List Step × End
  unfolding take_steps
  bidirectional_stream_echo = if works 0 then take_steps 1 steps else ([], not_started)

  take_steps_end :
      (n : ℕ) (ss : List Step)
      → (take_steps n ss).1 ≡ (if all_work works n (length ss) then finished else aborted)
  unfolding take_steps
  take_steps_end n [] = refl
  take_steps_end n (s ∷ ss) = ground (arith, take_steps_end (suc n) ss)

-- The commands that reach the server.
abbrev pub commands_of : List Step → List Command
commands_of [] = []
commands_of (write c ∷ ss) = c ∷ commands_of ss
commands_of (wait ms ∷ ss) = commands_of ss
commands_of (writes_done ∷ ss) = commands_of ss

-- The handler ends well only if each of its operations works: if one fails once the call has started,
-- the handler aborts.
pub bidirectional_stream_echo_end :
    (works : ℕ → Bool)
    → (bidirectional_stream_echo works).1
      ≡ (if works 0 then if all_work works 1 5 then finished else aborted else not_started)
unfolding bidirectional_stream_echo
bidirectional_stream_echo_end works = ground (arith, take_steps_end works 1 steps)

-- Whichever operations fail, the server's handler refuses none of the commands that reach it.
bidirectional_echo_accepts :
    (works : ℕ → Bool)
    → (e : Echo) × (st : Status) × (bidirectional_echo
          (commands_of (bidirectional_stream_echo works).0)
        ≡ some (e, st))
      × (is_ok e.status ≡ true)
unfolding bidirectional_stream_echo take_steps bidirectional_echo process_all process
bidirectional_echo_accepts works = elim (Bool-cases (works 0)) [
  | inr f ↦ rw f (_, _, refl, refl)
  | inl w ↦ elim (Bool-cases (works 1)) [
    | inr f ↦ rw (w, f) (_, _, refl, refl)
    | inl w₁ ↦ elim (Bool-cases (works 2)) [
      | inr f ↦ rw (w, w₁, f) (_, _, refl, refl)
      | inl w₂ ↦ elim (Bool-cases (works 3)) [
        | inr f ↦ rw (w, w₁, w₂, f) (_, _, refl, refl)
        | inl w₃ ↦ elim (Bool-cases (works 4)) [
          | inr f ↦ rw (w, w₁, w₂, w₃, f) (_, _, refl, refl)
          | inl w₄ ↦ elim (Bool-cases (works 5)) [
            | inr f ↦ rw (w, w₁, w₂, w₃, w₄, f) (_, _, refl, refl)
            | inl w₅ ↦ rw (w, w₁, w₂, w₃, w₄, w₅) (_, _, refl, refl)
          ]
        ]
      ]
    ]
  ]
]
