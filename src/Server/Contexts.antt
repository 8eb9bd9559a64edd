-- ===== src/Server/Contexts.antt =====
-- The contexts of the four kinds of calls of async_grpc/async_grpc/server.hpp, with which a handler
-- reads, writes and finishes its call. A handler is a task that asks its executor for the operations
-- of its context; the options of a write are left to gRPC.
use Prim.Native.String.{String}
use async_sandbox.Prelude.{ℕ, ℤ, Bool, true, false, Option, none, some, List, [], ◌∷◌}
use async_sandbox.AsyncLib.Dialogue.{Dialogue, answer, ask, Seq, ret, request}
use async_sandbox.AsyncGrpc.Status.{Status}
use async_sandbox.AsyncGrpc.Unary.{Reply, finish as send, finish_with_error as send_error}

-- The responses of the services.
pub data Response : Type 0 where
  echoed : String → Response
  messages : List String → Response
  numbered : String → ℕ → Response
  was_inserted : Bool → Response
  value : ℤ → Response
  was_deleted : Bool → Response

pub data Operation : Type 0 where
  read : Operation
  write : Response → Operation
  write_and_finish : Response → Status → Operation
  -- `Finish`, which for a writer has no response
  finish : Option Response → Status → Operation
  finish_with_error : Status → Operation
  -- an alarm, in milliseconds
  alarm : ℕ → Operation

-- The operations of `ServerUnaryContext`.
unfoldable pub unary_offers : Operation → Bool
unary_offers (finish (some r) st) = true
unary_offers (finish_with_error st) = true
unary_offers _ = false

-- The operations of `ServerClientStreamContext`.
unfoldable pub client_stream_offers : Operation → Bool
client_stream_offers read = true
client_stream_offers (finish (some r) st) = true
client_stream_offers (finish_with_error st) = true
client_stream_offers _ = false

-- The operations of `ServerServerStreamContext`.
unfoldable pub server_stream_offers : Operation → Bool
server_stream_offers (write r) = true
server_stream_offers (write_and_finish r st) = true
server_stream_offers (finish none st) = true
server_stream_offers _ = false

-- The operations of `ServerBidirectionalStreamContext`.
unfoldable pub bidirectional_stream_offers : Operation → Bool
bidirectional_stream_offers read = true
bidirectional_stream_offers (write r) = true
bidirectional_stream_offers (write_and_finish r st) = true
bidirectional_stream_offers (finish none st) = true
bidirectional_stream_offers _ = false

pub data Value : Type 0 where
  asked : Operation → Value
  -- the flag of an operation, with the request that a read fills in
  reply : Bool → String → Value
  -- the handler has returned
  returned : Value
  out_of_fuel : Value

abbrev pub flag_of : Value → Bool
flag_of (reply ok q) = ok
flag_of _ = false

abbrev pub request_of : Value → String
request_of (reply ok q) = q
request_of _ = ""

-- `co_await context->Finish(...)`, and the end of the handler.
abbrev pub finish_with : Operation → Seq Value
finish_with q = request (asked q) (λ r. ret returned)

-- `Finish` with a response or `FinishWithError` of a unary call.
abbrev pub finish_unary : {A : Type 0} → (A → Response) → Reply A → Seq Value
finish_unary f (send a st) = finish_with (finish (some (f a)) st)
finish_unary f (send_error st) = finish_with (finish_with_error st)

-- The operations that a handler asks for until the replies end, and what it has come to if it has
-- ended.
abbrev pub asked_by : Value → List Operation → List Operation
asked_by (asked q) qs = q ∷ qs
asked_by _ qs = qs

unfoldable pub talk : Dialogue Value → List Value → List Operation × Option Value
talk (answer v) rs = ([], some v)
talk (ask v d) [] = (asked_by v [], none)
talk (ask v d) (r ∷ rs) = let (qs, end) = talk (d r) rs in (asked_by v qs, end)
