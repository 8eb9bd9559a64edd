-- ===== src/Examples/Handlers.antt =====
-- The tasks of handlers of async_grpc/server, with replies to their operations.
use async_sandbox.Prelude.{◌≡◌, refl, true, false, none, some, List, [], ◌∷◌, arith}
use async_sandbox.AsyncLib.Dialogue.{denote}
use async_sandbox.AsyncGrpc.Status.{ok_status}
use async_sandbox.Server.EchoService.{client_stream_echo}
use async_sandbox.Server.Contexts.{
  messages, numbered, read, write, finish, alarm, client_stream_offers, Value, reply, returned,
  talk,
}
use async_sandbox.Server.Handlers.{
  read_requests, client_stream_echo_impl, client_stream_echo as stream, server_stream_echo_impl,
  handler,
}
use async_sandbox.Server.Handlers.Calls.{KeepsOrder, handler-KeepsOrder}
use async_sandbox.Server.Handlers.Agreement.{
  Ends, read_each, server_stream_echo_impl_numbers, client_stream_echo_impl-Ends,
}

abbrev replies : List Value
replies = reply true "a" ∷ reply true "b" ∷ reply false "" ∷ reply true "" ∷ []

handler-KeepsOrder_example : KeepsOrder client_stream_offers (denote (handler 5 stream)) replies
handler-KeepsOrder_example = handler-KeepsOrder 5 stream replies (omega arith)

handler_runs :
    talk (denote (handler 5 stream)) replies
    ≡ (read ∷ read ∷ read ∷ finish (some (messages ("a" ∷ "b" ∷ []))) ok_status ∷ [], some returned)
unfolding talk denote handler client_stream_echo_impl read_requests
handler_runs = refl

server_stream_echo_impl_numbers_example :
    Ends
      (denote (server_stream_echo_impl 2 "hi" 10 1))
      replies
      (alarm 10 ∷ write (numbered "hi" 1) ∷ finish none ok_status ∷ [])
server_stream_echo_impl_numbers_example =
    server_stream_echo_impl_numbers "hi" 10 1 replies (omega arith) (omega arith)

client_stream_echo_impl-Ends_example : Ends (denote (client_stream_echo_impl 3)) replies (
    read_each ("a" ∷ "b" ∷ []) (
      read
      ∷ finish
          (some (messages (client_stream_echo ("a" ∷ "b" ∷ [])).0))
          (client_stream_echo ("a" ∷ "b" ∷ [])).1
      ∷ []))
client_stream_echo_impl-Ends_example =
    client_stream_echo_impl-Ends 3 ("a" ∷ "b" ∷ []) "" (reply true "") [] (omega arith)
