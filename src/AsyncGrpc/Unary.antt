-- ===== src/AsyncGrpc/Unary.antt =====
-- A unary call between a client and a server: `ServerUnaryContext` of async_grpc/async_grpc/server.hpp
-- and `Client::CallUnary` of client.hpp. The network and gRPC decide what becomes of a call.
use async_sandbox.Prelude.{Bool, true, false}
use async_sandbox.AsyncGrpc.Status.{Status}

-- What a handler sends: `Finish` with a response, or `FinishWithError`.
pub data Reply (A : Type 0) : Type 0 where
  finish : A → Status → Reply A
  finish_with_error : Status → Reply A

-- What gRPC makes of one call: `Finish` gives false, which the callers test for though gRPC documents
-- that it does not for a unary call; it fails or is cancelled before or after the handler ran, with a
-- status; or the handler's reply arrives.
pub data Delivery : Type 0 where
  cancelled : Delivery
  failed : Status → Delivery
  lost : Status → Delivery
  delivered : Delivery

-- The server's state, and the caller's `status` and `response`.
pub record Call (S A : Type 0) : Type 0 where
  pub server : S
  pub status : Status
  pub response : A

module _ {S A : Type 0} where
  -- gRPC fills in the caller's variables; without a response it leaves that one alone.
  abbrev pub receive : Call S A → S × Reply A → Call S A
  receive c (s, finish a st) = record { server = s; status = st; response = a }
  receive c (s, finish_with_error st) = record c { server = s; status = st }

  -- `CallUnary`: the flag of `Finish`, false if the call was cancelled
  unfoldable pub call_unary : (S → S × Reply A) → Delivery → Call S A → Bool × Call S A
  call_unary handler cancelled c = (false, c)
  call_unary handler (failed st) c = (true, record c { status = st })
  call_unary handler (lost st) c = (true, record c { server = (handler c.server).0; status = st })
  call_unary handler delivered c = (true, receive c (handler c.server))
