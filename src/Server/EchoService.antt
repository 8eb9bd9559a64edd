-- ===== src/Server/EchoService.antt =====
-- async_grpc/server/echo_service_impl.cpp: the handlers of the echo service. What the client sends is
-- an argument: a list of messages, after which `Read` fails. A handler gives what it sends.
pub mod Streams
pub mod Bidirectional
pub mod Writing
pub mod Sessions
use Prim.Native.String.{String}
use text.Mathlib.Text.{◌==◌ as str_eq}
use async_sandbox.Prelude.{
  ℕ, zero, suc, ◌+◌, ◌%◌, ◌^◌, Bool, true, false, ◌||◌, Option, none, some, List, [], ◌∷◌, ◌++◌,
  leb, ◌==◌, if◌then◌else◌,
}
use async_sandbox.AsyncGrpc.Status.{Status, is_ok, ok_status, failed_precondition}

-- `UnaryEchoImpl`
unfoldable pub unary_echo : String → String × Status
unary_echo message = (message, ok_status)

-- The loop of `ClientStreamEchoImpl`, with the messages of the response so far.
unfoldable pub read_messages : List String → List String → List String
read_messages messages [] = messages
read_messages messages (m ∷ rest) = read_messages (messages ++ m ∷ []) rest

unfoldable pub client_stream_echo : List String → List String × Status
unfolding read_messages
client_stream_echo requests = (read_messages [] requests, ok_status)

abbrev pub u32_mod : ℕ
u32_mod = 2 ^ 32

-- The loop of `ServerStreamEchoImpl` from `n` on, for at most `fuel` rounds: the numbers of the
-- responses. The results of the alarm and of `Write` are not looked at.
unfoldable pub write_numbers : ℕ → ℕ → ℕ → Option (List ℕ)
write_numbers zero n count = none
write_numbers (suc fuel) n count =
    let rest = write_numbers fuel ((n + 1) % u32_mod) count in
    if leb n count then (elim rest [ none ↦ none | some ns ↦ some (n ∷ ns) ]) else some []

unfoldable pub server_stream_echo : ℕ → ℕ → Option (List ℕ × Status)
server_stream_echo fuel count = elim (write_numbers fuel 1 count) [
  | none ↦ none
  | some ns ↦ some (ns, ok_status)
]

-- `BidirectionalStreamEchoRequest`; `unset` is a request with no command.
pub data Command : Type 0 where
  message : String → ℕ → Command
  start : Command
  stop : Command
  unset : Command

-- What the handler does with its subroutine: it starts it on a message and a delay, or cancels the
-- alarm and awaits it.
pub data Effect : Type 0 where
  started : String → ℕ → Effect
  stopped : Effect

pub record Echo : Type 0 where
  pub status : Status
  pub response : String
  pub delay_ms : ℕ
  -- whether `subroutine` holds a task
  pub subroutine : Bool
  pub effects : List Effect

abbrev pub initial : Echo
initial = record {
  status = ok_status;
  response = "";
  delay_ms = 0;
  subroutine = false;
  effects = [];
}

abbrev pub refuse : Echo → String → Echo
refuse e why = record e {
  status = record { error_code = failed_precondition; error_message = why };
}

-- `alarm.Cancel()` and the await of the subroutine, which is taken to return here. In Sessions the
-- subroutine takes its own steps, and the handler waits until it has left; Writing says when the cancel
-- is lost on it.
abbrev pub end_subroutine : Echo → Echo
end_subroutine e = record e { subroutine = false; effects = e.effects ++ stopped ∷ [] }

-- The body of the loop of `BidirectionalStreamEchoImpl`, in which each await of the subroutine returns;
-- `none` is the failed assertion.
unfoldable pub process : Echo → Command → Option Echo
process e (message m d) = some (
    if e.subroutine
    then refuse e "Can not change message while running"
    else record e { response = m; delay_ms = d })
process e start = some (
    if e.subroutine
    then refuse e "Can not start when already started"
    else if str_eq e.response "" || e.delay_ms == 0
    then refuse e "Can not start with invalid message set"
    else record e { subroutine = true; effects = e.effects ++ started e.response e.delay_ms ∷ [] })
process e stop =
    some (if e.subroutine then end_subroutine e else refuse e "Can not stop when not running")
process e unset = none

-- `while (status.ok() && co_await context->Read(request))`
unfoldable pub process_all : Echo → List Command → Option Echo
unfolding process
process_all e [] = some e
process_all e (c ∷ cs) =
    if is_ok e.status
    then (elim (process e c) [ none ↦ none | some e' ↦ process_all e' cs ])
    else some e

abbrev pub clean_up : Echo → Echo
clean_up e = if e.subroutine then end_subroutine e else e

-- The handler, if each await of the subroutine returns: the state in the end, and the status that
-- `Finish` sends.
unfoldable pub bidirectional_echo : List Command → Option (Echo × Status)
unfolding process_all
bidirectional_echo requests = elim (process_all initial requests) [
  | none ↦ none
  | some e ↦ some (clean_up e, ok_status)
]
