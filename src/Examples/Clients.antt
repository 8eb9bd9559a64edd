-- ===== src/Examples/Clients.antt =====
-- The client program at concrete lines and operations (async_grpc/client/main.cpp).
use Prim.Native.String.{String}
use text.Mathlib.Text.{starts_with}
use async_sandbox.Prelude.{
  ℕ, ◌+◌, ◌≡◌, refl, Bool, true, false, some, List, [], ◌∷◌, arith, ltb, length, if◌then◌else◌, ◌↔◌,
}
use async_sandbox.AsyncLib.Dialogue.{denote}
use async_sandbox.AsyncGrpc.Status.{ok_status}
use async_sandbox.AsyncGrpc.Unary.{Reply, finish, Call, lost, delivered}
use async_sandbox.AsyncGrpc.Retry.{Retrying, Weather, start, default_retry_policy, auto_retry_unary}
use async_sandbox.Examples.Calls.{why}
use async_sandbox.Client.Program.{
  unary_echo, noop, name, process, process_with, main_loop, react, spawns, unknown_command,
}
use async_sandbox.Client.Dispatch.{process_iff}
use async_sandbox.Client.Tasks.{
  Response, unary, messages, received, outcome, client_stream_echo, server_stream_echo,
  unary_echo as unary_echo_task, nested_echo, Value, reply, nothing, numbered,
}
use async_sandbox.Client.Calls.{no_call, Behaves}
use async_sandbox.Client.Calls.Order.{handlers-Behave}
use async_sandbox.Client.Outcomes.{
  converse, outcome_of, all_work, client_stream_env, client_stream_outcome,
}
use async_sandbox.Client.Reads.{
  server_stream_env, until_failure, three_numbers, status_after, server_stream_outcome,
}
use async_sandbox.Client.Retries.{unary_env, trying, result, unary_echo_outcome}

process_iff_example :
    (process "UnaryEcho please" ≡ some unary_echo)
    ↔ (starts_with "UnaryEcho please" (name unary_echo) ≡ true)
process_iff_example = process_iff "UnaryEcho please" unary_echo

main_loop_runs :
    main_loop ("Noop" ∷ "noop" ∷ "quit" ∷ "Noop" ∷ []) ≡ spawns noop ∷ unknown_command ∷ []
unfolding main_loop react process process_with
main_loop_runs = refl

-- Only the operations before this number work.
abbrev up_to : ℕ → ℕ → Bool
up_to n k = ltb k n

client_stream_outcome_example :
    (converse
      (client_stream_env (up_to 9))
      (record { operations = 0; arrived = [] })
      (denote client_stream_echo)).0
    ≡ outcome (
        outcome_of
          (all_work (up_to 9) 0 6)
          (received ok_status (messages ("Hello!" ∷ "World!" ∷ "Bye!" ∷ []) ∷ [])))
client_stream_outcome_example = client_stream_outcome (up_to 9)

server_stream_outcome_example :
    (converse
      (server_stream_env (up_to 9) why)
      (record { operations = 0; to_come = []; status = why })
      (denote (server_stream_echo 4))).0
    ≡ outcome (
        outcome_of (up_to 9 0) (
          outcome_of (up_to 9 (1 + (1 + length (until_failure (up_to 9) why 1 three_numbers)))) (
            received
              (status_after (up_to 9) why ok_status 1 3)
              (until_failure (up_to 9) why 1 three_numbers))))
server_stream_outcome_example = server_stream_outcome (up_to 9) why 4 (omega arith)

-- A server that counts, and echoes what it is sent.
abbrev echoes : String → ℕ → ℕ × Reply Response
echoes m n = (n + 1, finish (unary m) ok_status)

-- The first reply is lost.
abbrev weather : Weather
weather = record { delivery = λ n. if ltb n 1 then lost why else delivered; rings = λ n. true }

abbrev call : Call ℕ Response
call = record { server = 0; status = why; response = unary "" }

unary_echo_outcome_example :
    (b : Bool) × (r : Retrying ℕ ℕ Response) × (auto_retry_unary default_retry_policy
        (echoes "hello")
        weather
        6
        (start call)
      ≡ some (b, r))
    × (converse
          (unary_env echoes weather)
          (trying echoes weather (start call))
          (denote unary_echo_task)
        ≡ (outcome (result echoes weather b r.call), trying echoes weather r))
unary_echo_outcome_example = unary_echo_outcome echoes weather call

-- The read that fails is the third.
abbrev stream_replies : List Value
stream_replies =
    reply true ok_status nothing
    ∷ reply true ok_status (numbered "hola" 1)
    ∷ reply true ok_status (numbered "hola" 2)
    ∷ reply false ok_status nothing
    ∷ reply true ok_status nothing
    ∷ []

handlers-Behave_example :
    Behaves no_call (denote nested_echo) stream_replies
    × Behaves no_call (denote unary_echo_task) stream_replies
    × Behaves no_call (denote client_stream_echo) stream_replies
    × Behaves no_call (denote (server_stream_echo 4)) stream_replies
handlers-Behave_example = handlers-Behave 4 stream_replies
