-- ===== src/Examples/Calls.antt =====
-- Calls, retries and round robin (async_grpc/async_grpc/client.hpp, client.cpp, server.cpp).
use async_sandbox.Prelude.{ℕ, zero, suc, ◌≡◌, refl, Bool, true, none, some, [], ◌∷◌}
use async_sandbox.AsyncGrpc.Status.{Status, ok_status, unavailable}
use async_sandbox.AsyncGrpc.Unary.{Reply, finish, Delivery, lost, failed, delivered, Call}
use async_sandbox.AsyncGrpc.Retry.{Retrying, Weather, default_retry_policy, start, auto_retry_unary}
use async_sandbox.AsyncGrpc.Retry.Attempts.{server_after, auto_retry_unary-server_after}
use async_sandbox.AsyncGrpc.Retry.Delays.{Finished, Tracks, auto_retry_unary-Finished}

abbrev pub why : Status
why = record { error_code = unavailable; error_message = "try again" }

-- A server that counts its calls.
abbrev count : ℕ → ℕ × Reply ℕ
count n = (suc n, finish n ok_status)

-- The first reply is lost, the second call fails, the third gets through.
abbrev deliveries : ℕ → Delivery
deliveries zero = lost why
deliveries (suc zero) = failed why
deliveries _ = delivered

abbrev weather : Weather
weather = record { delivery = deliveries; rings = λ n. true }

abbrev first_call : Call ℕ ℕ
first_call = record { server = 10; status = why; response = 0 }

abbrev last_call : Retrying ℕ ℕ ℕ
last_call = record {
  call = record { server = 12; status = ok_status; response = 11 };
  retry_policy = 2;
  attempts = 3;
  waited = 1 ∷ 2 ∷ [];
}

auto_retry_unary_runs :
    auto_retry_unary default_retry_policy count weather 6 (start first_call)
    ≡ some (true, last_call)
unfolding auto_retry_unary default_retry_policy
auto_retry_unary_runs = refl

auto_retry_unary-Finished_example :
    (b : Bool) × (r : Retrying ℕ ℕ ℕ) × (auto_retry_unary default_retry_policy count weather 6
        (start first_call)
      ≡ some (b, r))
    × Finished weather r b
    × Tracks count weather first_call r
auto_retry_unary-Finished_example = auto_retry_unary-Finished count weather first_call

auto_retry_unary-server_after_example : 12 ≡ server_after count deliveries 3 10
auto_retry_unary-server_after_example =
    auto_retry_unary-server_after default_retry_policy count weather 6 (start first_call) last_call
      10 true refl auto_retry_unary_runs

-- The retries are used up after the last delay.
default_retry_policy_ends : default_retry_policy 5 why ≡ (none, 5)
unfolding default_retry_policy
default_retry_policy_ends = refl
