-- ===== src/Examples/Printing.antt =====
-- The printing of a status (async_grpc/async_grpc/iostream.cpp).
use Prim.Native.String.{String}
use async_sandbox.Prelude.{◌≡◌, refl, false}
use async_sandbox.AsyncGrpc.Status.{StatusCode, unavailable, Status, is_ok, ok_status, to_string}
use async_sandbox.AsyncGrpc.Status.Printing.{print_code, print_status, print_status-injective}

abbrev numbers : StatusCode → String
numbers unavailable = "14"
numbers _ = "0"

abbrev down : Status
down = record { error_code = unavailable; error_message = "down" }

print_status_runs : print_status numbers down ≡ "UNAVAILABLE(14): down"
unfolding print_status print_code to_string
print_status_runs = refl

print_ok_runs : print_status numbers ok_status ≡ "OK(0)"
unfolding print_status print_code to_string
print_ok_runs = refl

print_status-injective_example :
    (down.error_code ≡ unavailable) × (is_ok down ≡ false → down.error_message ≡ "down")
print_status-injective_example = print_status-injective numbers down down refl
