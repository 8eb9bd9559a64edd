-- ===== src/AsyncGrpc/Status.antt =====
-- `grpc::Status` as the program uses it, and its printing in async_grpc/async_grpc/iostream.cpp.
pub mod Printing
use Prim.Native.String.{String}
use async_sandbox.Prelude.{Bool, true, false}

pub data StatusCode : Type 0 where
  ok cancelled unknown invalid_argument deadline_exceeded not_found already_exists : StatusCode
  permission_denied unauthenticated resource_exhausted failed_precondition aborted : StatusCode
  out_of_range unimplemented internal unavailable data_loss do_not_use : StatusCode

pub record Status : Type 0 where
  pub error_code : StatusCode
  pub error_message : String

abbrev pub is_ok : Status → Bool
is_ok s = elim s.error_code [ ok ↦ true | _ ↦ false ]

abbrev pub ok_status : Status
ok_status = record { error_code = ok; error_message = "" }

-- The codes are those of `grpc::StatusCode`, so that the `default` of the `switch`, behind a failed
-- assertion, has no clause.
unfoldable pub to_string : StatusCode → String
to_string ok = "OK"
to_string cancelled = "CANCELLED"
to_string unknown = "UNKNOWN"
to_string invalid_argument = "INVALID_ARGUMENT"
to_string deadline_exceeded = "DEADLINE_EXCEEDED"
to_string not_found = "NOT_FOUND"
to_string already_exists = "ALREADY_EXISTS"
to_string permission_denied = "PERMISSION_DENIED"
to_string unauthenticated = "UNAUTHENTICATED"
to_string resource_exhausted = "RESOURCE_EXHAUSTED"
to_string failed_precondition = "FAILED_PRECONDITION"
to_string aborted = "ABORTED"
to_string out_of_range = "OUT_OF_RANGE"
to_string unimplemented = "UNIMPLEMENTED"
to_string internal = "INTERNAL"
to_string unavailable = "UNAVAILABLE"
to_string data_loss = "DATA_LOSS"
to_string do_not_use = "DO_NOT_USE"
