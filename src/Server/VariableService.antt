-- ===== src/Server/VariableService.antt =====
-- async_grpc/server/variable_service_impl.hpp and .cpp: named integers behind a mutex. A handler
-- touches the storage in one critical section, so a history of the service is a list of requests in
-- the order in which they take the lock.
pub mod Map
pub mod Refinement
use Prim.Native.String.{String}
use async_sandbox.Prelude.{ℤ, Bool, Option, none, some, List, [], ◌∷◌}
use async_sandbox.AsyncGrpc.Status.{StatusCode, Status, not_found, ok_status}
use async_sandbox.AsyncGrpc.Unary.{Reply, finish, finish_with_error}
use Map.{Storage, find, insert_or_assign, erase}

unfoldable pub write_impl : Storage → String → ℤ → Storage × Reply Bool
write_impl s key value =
    let (s', was_inserted) = insert_or_assign s key value in (s', finish was_inserted ok_status)

unfoldable pub read_impl : Storage → String → Storage × Reply ℤ
read_impl s key = elim (find s key) [
  | none ↦ (
    s,
    finish_with_error
        (record { error_code = not_found; error_message = "Request key was not found in storage" }),
  )
  | some v ↦ (s, finish v ok_status)
]

unfoldable pub del_impl : Storage → String → Storage × Reply Bool
del_impl s key = let (s', was_deleted) = erase s key in (s', finish was_deleted ok_status)

pub data Request : Type 0 where
  write : String → ℤ → Request
  read : String → Request
  del : String → Request

pub data Response : Type 0 where
  wrote : Reply Bool → Response
  got : Reply ℤ → Response
  deleted : Reply Bool → Response

unfoldable pub handle : Storage → Request → Storage × Response
unfolding write_impl read_impl del_impl
handle s (write key value) = let (s', r) = write_impl s key value in (s', wrote r)
handle s (read key) = let (s', r) = read_impl s key in (s', got r)
handle s (del key) = let (s', r) = del_impl s key in (s', deleted r)

unfoldable pub handle_all : Storage → List Request → Storage × List Response
unfolding handle
handle_all s [] = (s, [])
handle_all s (q ∷ qs) = let (s₁, r) = handle s q in let (s₂, rs) = handle_all s₁ qs in (s₂, r ∷ rs)
