-- ===== src/Client/Tasks.antt =====
-- The handlers of async_grpc/client/main.cpp as tasks, over the calls of async_grpc/async_grpc/client.hpp.
-- A task asks its executor for the operations of a call, and gets a flag with what gRPC filled in.
use Prim.Native.String.{String}
use async_sandbox.Prelude.{
  ℕ, zero, suc, Bool, false, Option, none, some, List, [], ◌∷◌, ◌++◌, if◌then◌else◌,
}
use async_sandbox.AsyncLib.Dialogue.{Seq, ret, request, bind}
use async_sandbox.AsyncGrpc.Status.{Status, is_ok, ok_status}
use async_sandbox.AsyncGrpc.Retry.{default_retry_policy}

pub data Operation : Type 0 where
  -- `ClientUnaryCall::Finish`, for a call with this message
  finish_unary : String → Operation
  -- `CallClientStream`, and the operations of `ClientClientStreamCall`
  start_client_stream : Operation
  write : String → Operation
  writes_done : Operation
  finish : Operation
  -- `CallServerStream` with a message, a count and a delay, and `ClientServerStreamCall::Read`
  start_server_stream : String → ℕ → ℕ → Operation
  read : Operation
  -- an alarm, in seconds
  alarm : ℕ → Operation

pub data Response : Type 0 where
  nothing : Response
  unary : String → Response
  messages : List String → Response
  numbered : String → ℕ → Response

-- What a handler comes to.
pub data Outcome : Type 0 where
  cancelled : Outcome
  received : Status → List Response → Outcome
  ended : Outcome

pub data Value : Type 0 where
  ask : Operation → Value
  reply : Bool → Status → Response → Value
  text : String → Value
  outcome : Outcome → Value

abbrev pub flag_of : Value → Bool
flag_of (reply ok status response) = ok
flag_of _ = false

abbrev pub status_of : Value → Status
status_of (reply ok status response) = status
status_of _ = ok_status

abbrev pub response_of : Value → Response
response_of (reply ok status response) = response
response_of _ = nothing

-- The response is looked at if the status is OK.
abbrev pub received_from : Value → Outcome
received_from r = received (status_of r) (if is_ok (status_of r) then response_of r ∷ [] else [])

abbrev pub unless_cancelled : Value → Seq Value → Seq Value
unless_cancelled r go_on = if flag_of r then go_on else ret (outcome cancelled)

unfoldable pub noop : Seq Value
noop = bind (bind (ret (text "sub2")) (λ sub2. ret (text "sub1"))) (λ sub1. ret (outcome ended))

-- The coroutine `CallUnary`.
unfoldable pub call_unary : String → Seq Value
call_unary message = request (ask (finish_unary message)) (λ r. ret r)

abbrev pub show_reply : Value → Seq Value
show_reply r = unless_cancelled r (ret (outcome (received_from r)))

unfoldable pub nested_echo : Seq Value
unfolding call_unary
nested_echo = bind (bind (bind (call_unary "hello") show_reply) ret) ret

-- `co_await *shouldRetry`, and the next round, if the policy retries.
abbrev pub after_policy : Option ℕ × ℕ → Value → (ℕ → Seq Value) → Seq Value
after_policy (none, count) r again = ret r
after_policy (some delay, count) r again =
    request (ask (alarm delay)) λ rung. if flag_of rung then again count else ret rung

-- The coroutine `AutoRetryUnary` with the policy's count of retries, for at most so many rounds.
unfoldable pub auto_retry_unary : ℕ → ℕ → String → Seq Value
unfolding call_unary default_retry_policy
auto_retry_unary zero retry_count message = ret (outcome ended)
auto_retry_unary (suc fuel) retry_count message = bind (call_unary message) λ r.
    if flag_of r
    then if is_ok (status_of r)
      then ret r
      else after_policy (default_retry_policy retry_count (status_of r)) r
          (λ count. auto_retry_unary fuel count message)
    else ret r

unfoldable pub unary_echo : Seq Value
unfolding auto_retry_unary
unary_echo = bind (auto_retry_unary 6 0 "hello") show_reply

-- The rest of a client stream: the messages to write, the end of the writes, the response.
unfoldable pub write_messages : List String → Seq Value
write_messages [] =
    request (ask writes_done) λ r. unless_cancelled r (request (ask finish) show_reply)
write_messages (m ∷ ms) = request (ask (write m)) λ r. unless_cancelled r (write_messages ms)

abbrev call_client_stream : (Value → Seq Value) → Seq Value
call_client_stream go_on = request (ask start_client_stream) go_on

abbrev call_server_stream : String → ℕ → ℕ → (Value → Seq Value) → Seq Value
call_server_stream message count delay_ms go_on =
    request (ask (start_server_stream message count delay_ms)) go_on

unfoldable pub client_stream_echo : Seq Value
unfolding write_messages
client_stream_echo =
    call_client_stream λ r. unless_cancelled r (write_messages ("Hello!" ∷ "World!" ∷ "Bye!" ∷ []))

-- `while (co_await call->Read(response))`, for at most so many rounds, with the responses so far, and
-- the status.
unfoldable pub read_responses : ℕ → List Response → Seq Value
read_responses zero before = ret (outcome ended)
read_responses (suc fuel) before = request (ask read) λ r.
    if flag_of r
    then read_responses fuel (before ++ response_of r ∷ [])
    else request (ask finish)
        λ s. unless_cancelled s (ret (outcome (received (status_of s) before)))

unfoldable pub server_stream_echo : ℕ → Seq Value
unfolding read_responses
server_stream_echo fuel =
    call_server_stream "hola" 3 1000 λ r. unless_cancelled r (read_responses fuel [])
