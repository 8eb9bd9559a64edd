-- ===== src/Client/Reads.antt =====
-- What the server stream call of async_grpc/client/main.cpp comes to against the handler of
-- async_grpc/server/echo_service_impl.cpp.
use Prim.Native.String.{String}
use mathlib.Core.Path.{ap₂}
use mathlib.Core.List.{append-nil, append_assoc}
use async_sandbox.Prelude.{
  ℕ, zero, suc, ◌+◌, ◌<◌, ◌≡◌, refl, sym, ap, ◌∙◌, Bool, true, false, Option, none, some, List, [],
  ◌∷◌, ◌++◌, map, arith, length, if◌then◌else◌, Bool-cases, inl, inr,
}
use async_sandbox.AsyncLib.Dialogue.{denote, request, ret}
use async_sandbox.AsyncGrpc.Status.{Status, ok_status}
use async_sandbox.Server.EchoService.{server_stream_echo as serve_server_stream}
use async_sandbox.Server.EchoService.Streams.{server_stream_echo_lem}
use async_sandbox.Client.Tasks.{
  finish, start_server_stream, read, Response, nothing, numbered, received, Value, ask, reply,
  outcome, status_of, unless_cancelled, read_responses, server_stream_echo,
}
use async_sandbox.Client.Outcomes.{converse, outcome_of, all_work}

-- The server's side of a server stream: the operations so far, the responses that are
-- to come, and the status that `Finish` is to give.
pub record Coming : Type 0 where
  pub operations : ℕ
  pub to_come : List Response
  pub status : Status

-- The handler's responses, with one round of its loop for each, and one more test.
abbrev responses_of : String → Option (List ℕ × Status) → List Response
responses_of m none = []
responses_of m (some (ns, st)) = map (numbered m) ns

abbrev pub served : String → ℕ → List Response
served m count = responses_of m (serve_server_stream (count + 1) count)

-- The status that the handler finishes with.
abbrev status_in : Status → Option (List ℕ × Status) → Status
status_in otherwise none = otherwise
status_in otherwise (some (ns, st)) = st

abbrev pub served_status : Status → String → ℕ → Status
served_status otherwise m count = status_in otherwise (serve_server_stream (count + 1) count)

abbrev pub three_numbers : List Response
three_numbers = map (numbered "hola") (1 ∷ 2 ∷ 3 ∷ [])

served_three : served "hola" 3 ≡ three_numbers
served_three = ap (responses_of "hola") (server_stream_echo_lem 3 (omega arith))

served_status_three : (otherwise : Status) → served_status otherwise "hola" 3 ≡ ok_status
served_status_three otherwise = ap (status_in otherwise) (server_stream_echo_lem 3 (omega arith))

-- With which operations work, and what `Finish` gives behind a `Read` that failed before the end of the
-- stream.
module _ (works : ℕ → Bool) (broken : Status) where
  -- A `Read` fails at the end of the stream, or when it is cancelled.
  abbrev read_next : Coming → Bool → List Response → Value × Coming
  read_next s true [] = (reply false ok_status nothing, record s { operations = suc s.operations })
  read_next s true (r ∷ rs) =
      (reply true ok_status r, record s { operations = suc s.operations; to_come = rs })
  read_next s false rs =
      (reply false ok_status nothing, record s { operations = suc s.operations; status = broken })

  abbrev pub server_stream_env : Coming → Value → Value × Coming
  server_stream_env s (ask (start_server_stream m count delay)) = (
    reply (works s.operations) ok_status nothing,
    record {
      operations = suc s.operations;
      to_come = served m count;
      status = served_status broken m count;
    },
  )
  server_stream_env s (ask read) = read_next s (works s.operations) s.to_come
  server_stream_env s v =
      (reply (works s.operations) s.status nothing, record s { operations = suc s.operations })

  -- What is read up to the first `Read` that fails; the first of them has the number `n`.
  abbrev pub until_failure : ℕ → List Response → List Response
  until_failure n [] = []
  until_failure n (r ∷ rs) = if works n then r ∷ until_failure (suc n) rs else []

  -- The server's status, if all so many reads work and one more, which finds the end of the stream.
  abbrev pub status_after : Status → ℕ → ℕ → Status
  status_after st n k = if all_work works n (suc k) then st else broken

  finish_lem :
      (rs : List Response) (n : ℕ) (st : Status) (before : List Response)
      → (converse server_stream_env
          (record { operations = suc n; to_come = rs; status = st })
          (denote (
            request
              (ask finish)
              λ s. unless_cancelled s (ret (outcome (received (status_of s) before)))))).0
        ≡ outcome (outcome_of (works (suc (n + 0))) (received st (before ++ [])))
  unfolding denote
  finish_lem rs n st before =
      let there : suc (n + 0) ≡ suc n = omega arith in
      elim (Bool-cases (works (suc n))) [
        | inl w ↦
            rw (there, w)
              (ap (λ (bs : List Response). outcome (received st bs)) (sym (append-nil before)))
        | inr f ↦ rw (there, f) refl
      ]

  same_end :
      (got before : List Response) (r : Response) (n : ℕ) (st : Status)
      → outcome
          (outcome_of (works (suc (suc n + length got))) (received st ((before ++ r ∷ []) ++ got)))
        ≡ outcome
            (outcome_of (works (suc (n + suc (length got)))) (received st (before ++ r ∷ got)))
  same_end got before r n st =
      ap₂ (λ (k : ℕ) (bs : List Response). outcome (outcome_of (works k) (received st bs)))
        (omega arith) (append_assoc before (r ∷ []) got)

  read_responses_lem :
      (rs : List Response) (fuel n : ℕ) (st : Status) (before : List Response)
      → length rs < fuel
      → (converse server_stream_env
          (record { operations = n; to_come = rs; status = st })
          (denote (read_responses fuel before))).0
        ≡ outcome (
            outcome_of
              (works (suc (n + length (until_failure n rs))))
              (received (status_after st n (length rs)) (before ++ until_failure n rs)))
  unfolding denote read_responses
  read_responses_lem rs zero n st before h = absurd (omega arith)
  read_responses_lem [] (suc fuel) n st before h = elim (Bool-cases (works n)) [
    | inl w ↦ rw (converse, w) (finish_lem [] n st before)
    | inr f ↦ rw (converse, f) (finish_lem [] n broken before)
  ]
  read_responses_lem (r ∷ rs) (suc fuel) n st before h = elim (Bool-cases (works n)) [
    | inl w ↦
        rw (converse, w)
          (read_responses_lem rs fuel (suc n) st (before ++ r ∷ []) (omega arith)
            ∙ same_end (until_failure (suc n) rs) before r n (status_after st (suc n) (length rs)))
    | inr f ↦ rw (converse, f) (finish_lem (r ∷ rs) n broken before)
  ]

  -- If the call starts and its `Finish` works, the client has received the responses numbered 1 to 3 up
  -- to the first `Read` that failed, and has stopped reading there, with the status of the server, which
  -- is OK, if no `Read` failed before the end of the stream, and with the status of a broken stream if one
  -- did; if the start or `Finish` does not work, the call is cancelled. Four rounds of its loop are enough.
  pub server_stream_outcome :
      (fuel : ℕ)
      → 3 < fuel
      → (converse server_stream_env
          (record { operations = 0; to_come = []; status = broken })
          (denote (server_stream_echo fuel))).0
        ≡ outcome (
            outcome_of (works 0) (
              outcome_of
                (works (suc (1 + length (until_failure 1 three_numbers))))
                (received (status_after ok_status 1 3) (until_failure 1 three_numbers))))
  unfolding denote server_stream_echo
  server_stream_outcome fuel l = elim (Bool-cases (works 0)) [
    | inl w ↦
        rw (w, served_three, served_status_three broken)
          (read_responses_lem three_numbers fuel 1 ok_status [] l)
    | inr f ↦ rw f refl
  ]
