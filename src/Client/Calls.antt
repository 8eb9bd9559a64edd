-- ===== src/Client/Calls.antt =====
-- The protocol that gRPC documents for a call, which async_grpc/async_grpc/client.hpp passes on without
-- a test of its own, and the handlers of async_grpc/client/main.cpp as tasks that have to keep to it.
pub mod Order
use Prim.Native.String.{String}
use async_sandbox.Prelude.{
  ℕ, zero, suc, ◌≡◌, refl, Bool, true, false, Option, none, some, List, [], ◌∷◌, ◌++◌,
  if◌then◌else◌,
}
use async_sandbox.AsyncLib.Dialogue.{
  Dialogue, answer, ask, Seq, ret, request, bind, and_then, denote,
}
use async_sandbox.AsyncGrpc.Status.{Status, is_ok}
use async_sandbox.AsyncGrpc.Retry.{default_retry_policy}
use async_sandbox.Client.Tasks.{
  Operation, finish_unary, start_client_stream, write, writes_done, finish, start_server_stream,
  read, alarm, Response, Outcome, ended, received, Value, ask as asked, outcome, flag_of, status_of,
  response_of, unless_cancelled, noop, call_unary, show_reply, nested_echo, after_policy,
  auto_retry_unary, unary_echo, write_messages, client_stream_echo, read_responses,
  server_stream_echo,
}

-- Where a task stands with its stream call: it has none, it may write, it may read, it may only finish,
-- or it may not use the call any more.
pub data CallState : Type 0 where
  no_call writing reading closed over : CallState

-- `ClientClientStreamCall`: `Write` and `WritesDone` up to the first that fails, and then `Finish`.
unfoldable pub use_writer : CallState → Operation → Bool → Option CallState
use_writer writing (write m) ok = some (if ok then writing else closed)
use_writer writing writes_done ok = some closed
use_writer closed finish ok = some over
use_writer st q ok = none

-- `ClientServerStreamCall`: `Read` up to the first that fails, and then `Finish`.
unfoldable pub use_reader : CallState → Operation → Bool → Option CallState
use_reader reading read ok = some (if ok then reading else closed)
use_reader closed finish ok = some over
use_reader st q ok = none

-- What an operation with its flag makes of the state, if it may be used. A unary call is finished as
-- soon as it is made; a stream call that does not start gives no call to use.
unfoldable pub use_call : CallState → Operation → Bool → Option CallState
unfolding use_writer use_reader
use_call st (alarm d) ok = some st
use_call no_call (finish_unary m) ok = some no_call
use_call no_call start_client_stream ok = some (if ok then writing else over)
use_call no_call (start_server_stream m n d) ok = some (if ok then reading else over)
use_call writing q ok = use_writer writing q ok
use_call reading q ok = use_reader reading q ok
use_call closed q ok = use_writer closed q ok
use_call _ q ok = none

-- Whether a task uses its call as gRPC allows, until the replies end.
unfoldable pub behaves : CallState → Dialogue Value → List Value → Bool
unfolding use_call
behaves st (answer v) rs = true
behaves st (ask (asked q) d) [] = elim (use_call st q true) [ none ↦ false | some st' ↦ true ]
behaves st (ask (asked q) d) (r ∷ rs) = elim (use_call st q (flag_of r)) [
  | none ↦ false
  | some st' ↦ behaves st' (d r) rs
]
behaves st (ask v d) rs = false

abbrev pub Behaves : CallState → Dialogue Value → List Value → Type 0
Behaves st d rs = behaves st d rs ≡ true
