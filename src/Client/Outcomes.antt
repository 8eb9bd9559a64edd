-- ===== src/Client/Outcomes.antt =====
-- What the stream calls of async_grpc/client/main.cpp come to against the handlers of
-- async_grpc/server/echo_service_impl.cpp. gRPC carries the messages of a stream in their order; whether
-- an operation fails is an argument, by its number in the call.
use Prim.Native.String.{String}
use mathlib.Core.List.{append-nil, append_assoc}
use async_sandbox.Prelude.{
  ℕ, zero, suc, ◌≡◌, refl, sym, ap, ◌∙◌, Bool, true, false, ◌&&◌, List, [], ◌∷◌, ◌++◌, length,
  Bool-cases, inl, inr,
}
use async_sandbox.AsyncLib.Dialogue.{Dialogue, answer, ask as asks, denote}
use async_sandbox.AsyncGrpc.Status.{Status, ok_status}
use async_sandbox.Server.EchoService.{client_stream_echo as serve_client_stream}
use async_sandbox.Server.EchoService.Streams.{client_stream_echo_lem}
use async_sandbox.Client.Tasks.{
  Operation, write, finish, Response, nothing, messages, Outcome, cancelled, received, Value, ask,
  reply, outcome, write_messages, client_stream_echo,
}

-- A dialogue with its surroundings, which answer each request.
abbrev pub converse : {V S : Type 0} → (S → V → V × S) → S → Dialogue V → V × S
converse env s (answer v) = (v, s)
converse env s (asks q d) = let (r, s') = env s q in converse env s' (d r)

-- The server's side of a client stream: the operations so far, and the messages that arrived.
pub record Sent : Type 0 where
  pub operations : ℕ
  pub arrived : List String

abbrev pub outcome_of : Bool → Outcome → Outcome
outcome_of true o = o
outcome_of false o = cancelled

module _ (works : ℕ → Bool) where
  abbrev answer_to : Sent → Operation → Response × Status × List String
  answer_to s (write m) = (nothing, ok_status, s.arrived ++ m ∷ [])
  answer_to s finish = let (ms, st) = serve_client_stream s.arrived in (messages ms, st, s.arrived)
  answer_to s _ = (nothing, ok_status, s.arrived)

  abbrev pub client_stream_env : Sent → Value → Value × Sent
  client_stream_env s (ask o) =
      let (a, st, ms) = answer_to s o in
      (reply (works s.operations) st a, record { operations = suc s.operations; arrived = ms })
  client_stream_env s v = (v, s)

  -- Whether so many operations work, from the number `n` on.
  abbrev pub all_work : ℕ → ℕ → Bool
  all_work n zero = true
  all_work n (suc k) = works n && all_work (suc n) k

  pub write_messages_lem :
      (ms : List String) (s : Sent)
      → (converse client_stream_env s (denote (write_messages ms))).0
        ≡ outcome (
            outcome_of
              (all_work s.operations (suc (suc (length ms))))
              (received ok_status (messages (s.arrived ++ ms) ∷ [])))
  unfolding denote write_messages
  write_messages_lem [] s = elim (Bool-cases (works s.operations)) [
    | inl w ↦ elim (Bool-cases (works (suc s.operations))) [
      | inl v ↦
          rw (w, v, client_stream_echo_lem s.arrived)
            (ap (λ (ts : List String). outcome (received ok_status (messages ts ∷ [])))
              (sym (append-nil s.arrived)))
      | inr g ↦ rw (w, g) refl
    ]
    | inr f ↦ rw f refl
  ]
  write_messages_lem (m ∷ ms) s = elim (Bool-cases (works s.operations)) [
    | inl w ↦
        let s' : Sent = record { operations = suc s.operations; arrived = s.arrived ++ m ∷ [] } in
        rw w (
          write_messages_lem ms s'
          ∙ ap
              (λ (ts : List String). outcome (
                outcome_of (all_work (suc s.operations) (suc (suc (length ms))))
                  (received ok_status (messages ts ∷ []))))
              (append_assoc s.arrived (m ∷ []) ms))
    | inr f ↦ rw f refl
  ]

  -- If the six operations of the call work, the client gets back the messages that it sent, in their
  -- order, with the status OK; if one does not, the call is cancelled.
  pub client_stream_outcome :
      (converse client_stream_env
        (record { operations = 0; arrived = [] })
        (denote client_stream_echo)).0
      ≡ outcome (
          outcome_of
            (all_work 0 6)
            (received ok_status (messages ("Hello!" ∷ "World!" ∷ "Bye!" ∷ []) ∷ [])))
  unfolding denote client_stream_echo
  client_stream_outcome = elim (Bool-cases (works 0)) [
    | inl w ↦ rw w (
        write_messages_lem ("Hello!" ∷ "World!" ∷ "Bye!" ∷ [])
          (record { operations = 1; arrived = [] }))
    | inr f ↦ rw f refl
  ]
