-- ===== src/AsyncGrpc/Retry.antt =====
-- `DefaultRetryPolicy` of async_grpc/async_grpc/client.cpp and `Client::AutoRetryUnary` of client.hpp.
-- What becomes of each call and of each alarm are arguments, by the number of the attempt.
pub mod Attempts
pub mod Delays
use async_sandbox.Prelude.{
  ℕ, zero, suc, ◌+◌, Bool, true, false, ◌&&◌, Option, none, some, List, [], ◌∷◌, ◌++◌, ltb,
  if◌then◌else◌, ◌>>=◌, length, get_elem?,
}
use async_sandbox.AsyncGrpc.Status.{StatusCode, Status, is_ok, unavailable}
use async_sandbox.AsyncGrpc.Unary.{Reply, Delivery, Call, call_unary}

-- A policy decides on a status, and goes into its next state.
abbrev pub RetryPolicy : Type 0 → Type 0
RetryPolicy P = P → Status → Option ℕ × P

abbrev pub is_unavailable : StatusCode → Bool
is_unavailable unavailable = true
is_unavailable _ = false

-- in seconds
abbrev pub delays_s : List ℕ
delays_s = 1 ∷ 2 ∷ 3 ∷ 5 ∷ 8 ∷ []

unfoldable pub default_retry_policy : RetryPolicy ℕ
default_retry_policy retry_count status =
    if ltb retry_count (length delays_s) && is_unavailable status.error_code
    then (get_elem? delays_s retry_count, suc retry_count)
    else (none, retry_count)

pub record Retrying (P S A : Type 0) : Type 0 where
  pub call : Call S A
  pub retry_policy : P
  -- the calls made, and the delays waited for, oldest first
  pub attempts : ℕ
  pub waited : List ℕ

-- What gRPC makes of the calls and the alarms: whether an alarm rings or is cancelled.
pub record Weather : Type 0 where
  pub delivery : ℕ → Delivery
  pub rings : ℕ → Bool

pub data Round (P S A : Type 0) : Type 0 where
  co_return : Bool → Retrying P S A → Round P S A
  again : Retrying P S A → Round P S A

module _ {P S A : Type 0} (policy : RetryPolicy P) (handler : S → S × Reply A)
    (weather : Weather) where
  abbrev pub attempt : Retrying P S A → Bool × Retrying P S A
  attempt r =
      let (called, c) = call_unary handler (weather.delivery r.attempts) r.call in
      (called, record r { call = c; attempts = suc r.attempts })

  abbrev pub consult : Retrying P S A → Option ℕ × Retrying P S A
  consult r =
      let (delay, p) = policy r.retry_policy r.call.status in (delay, record r { retry_policy = p })

  -- One round of the loop: it returns, or goes round again.
  unfoldable pub retry_round : Retrying P S A → Round P S A
  unfolding call_unary
  retry_round r =
      let (called, r₁) = attempt r in
      let (delay, r₂) = consult r₁ in
      if called
      then if is_ok r₁.call.status then co_return true r₁ else elim delay [
        | none ↦ co_return true r₂
        | some d ↦
            let r₃ = record r₂ { waited = r₂.waited ++ d ∷ [] } in
            if weather.rings r.attempts then again r₃ else co_return false r₃
      ]
      else co_return false r₁

  -- At most so many rounds; `none` means that they were not enough.
  unfoldable pub auto_retry_unary : ℕ → Retrying P S A → Option (Bool × Retrying P S A)
  unfolding retry_round
  auto_retry_unary zero r = none
  auto_retry_unary (suc fuel) r = elim (retry_round r) [
    | co_return b r' ↦ some (b, r')
    | again r' ↦ auto_retry_unary fuel r'
  ]

abbrev pub start : {S A : Type 0} → Call S A → Retrying ℕ S A
start c = record { call = c; retry_policy = 0; attempts = 0; waited = [] }

-- `AutoRetryUnary` with its default options, which six rounds are enough for
unfoldable pub auto_retry_default :
    {S A : Type 0} → (S → S × Reply A) → Weather → Call S A → Option (Bool × Call S A)
unfolding auto_retry_unary default_retry_policy
auto_retry_default handler weather c = do
  (b, r) ← auto_retry_unary default_retry_policy handler weather 6 (start c)
  some (b, r.call)
