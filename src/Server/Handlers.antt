-- ===== src/Server/Handlers.antt =====
-- The handlers of async_grpc/server/echo_service_impl.cpp and variable_service_impl.cpp as tasks, but
-- for the bidirectional stream, whose two coroutines are in Server.EchoService.Sessions.
pub mod Calls
pub mod Agreement
use Prim.Native.String.{String}
use async_sandbox.Prelude.{
  ℕ, zero, suc, ◌+◌, ◌%◌, leb, Bool, none, some, List, [], ◌∷◌, ◌++◌, if◌then◌else◌,
}
use async_sandbox.AsyncLib.Dialogue.{Seq, ret, request}
use async_sandbox.AsyncGrpc.Status.{ok_status}
use async_sandbox.Server.EchoService.{u32_mod}
use async_sandbox.Server.VariableService.{Request, write_impl, read_impl, del_impl}
use async_sandbox.Server.VariableService.Map.{Storage}
use async_sandbox.Server.Contexts.{
  Response, echoed, messages, numbered, was_inserted, value, was_deleted, Operation, read, write,
  finish, alarm, unary_offers, client_stream_offers, server_stream_offers, Value, asked,
  out_of_fuel, flag_of, request_of, finish_with, finish_unary,
}

unfoldable pub unary_echo_impl : String → Seq Value
unary_echo_impl message = finish_with (finish (some (echoed message)) ok_status)

-- `while (co_await context->Read(request))`, for at most so many rounds, with the messages so far.
unfoldable pub read_requests : ℕ → List String → Seq Value
read_requests zero before = ret out_of_fuel
read_requests (suc fuel) before = request (asked read) λ r.
    if flag_of r
    then read_requests fuel (before ++ request_of r ∷ [])
    else finish_with (finish (some (messages before)) ok_status)

unfoldable pub client_stream_echo_impl : ℕ → Seq Value
unfolding read_requests
client_stream_echo_impl fuel = read_requests fuel []

-- The loop from `n` on, for at most so many tests of its condition.
unfoldable pub write_responses : ℕ → String → ℕ → ℕ → ℕ → Seq Value
write_responses zero message delay_ms n count = ret out_of_fuel
write_responses (suc fuel) message delay_ms n count =
    if leb n count
    then request (asked (alarm delay_ms)) (λ rung.
      request (asked (write (numbered message n)))
        (λ written. write_responses fuel message delay_ms ((n + 1) % u32_mod) count))
    else finish_with (finish none ok_status)

unfoldable pub server_stream_echo_impl : ℕ → String → ℕ → ℕ → Seq Value
unfolding write_responses
server_stream_echo_impl fuel message delay_ms count = write_responses fuel message delay_ms 1 count

-- A call that a handler was spawned for, with what its context holds.
pub data Call : Type 0 where
  unary_echo : String → Call
  client_stream_echo : Call
  server_stream_echo : String → ℕ → ℕ → Call
  variable : Storage → Request → Call

-- The part of a handler of the variable service behind its critical section.
unfoldable pub answer_request : Storage → Request → Seq Value
unfolding write_impl read_impl del_impl
answer_request s (Request.write key v) = finish_unary was_inserted (write_impl s key v).1
answer_request s (Request.read key) = finish_unary value (read_impl s key).1
answer_request s (Request.del key) = finish_unary was_deleted (del_impl s key).1

unfoldable pub handler : ℕ → Call → Seq Value
unfolding unary_echo_impl client_stream_echo_impl server_stream_echo_impl answer_request
handler fuel (unary_echo message) = unary_echo_impl message
handler fuel client_stream_echo = client_stream_echo_impl fuel
handler fuel (server_stream_echo message delay_ms count) =
    server_stream_echo_impl fuel message delay_ms count
handler fuel (variable s q) = answer_request s q

-- The operations of the context that the handler gets.
abbrev pub offers : Call → Operation → Bool
offers (unary_echo message) = unary_offers
offers client_stream_echo = client_stream_offers
offers (server_stream_echo message delay_ms count) = server_stream_offers
offers (variable s q) = unary_offers
