-- ===== src/AsyncGrpc/Retry/Delays.antt =====
-- The default policy in the loop of `AutoRetryUnary` (async_grpc/async_grpc/client.cpp, client.hpp).
use native.Mathlib.Decide.{dec_lt}
use async_sandbox.Prelude.{
  ℕ, zero, suc, ◌+◌, ◌≤◌, ◌<◌, ◌≡◌, refl, ◌⊎◌, Bool, true, false, some, List, [], ◌∷◌, ◌++◌, arith,
  get_elem?, ltb, length, Option, none, ◌&&◌, if◌then◌else◌,
}
use async_sandbox.AsyncGrpc.Status.{StatusCode, is_ok, unavailable}
use async_sandbox.AsyncGrpc.Unary.{Reply, Call, call_unary}
use async_sandbox.AsyncGrpc.Retry.{
  Retrying, Weather, start, Round, co_return, again, retry_round, delays_s, is_unavailable,
  default_retry_policy, auto_retry_unary,
}

abbrev pub take {ℓ} : {A : Type ℓ} → ℕ → List A → List A
take zero xs = []
take (suc n) [] = []
take (suc n) (x ∷ xs) = x ∷ take n xs

-- The delays in seconds, in their order.
abbrev pub schedule : List ℕ
schedule = 1 ∷ 2 ∷ 3 ∷ 5 ∷ 8 ∷ []

-- The caller's variables and the server behind so many calls, without a policy.
abbrev pub after_calls : {S A : Type 0} → (S → S × Reply A) → Weather → Call S A → ℕ → Call S A
after_calls handler weather c zero = c
after_calls handler weather c (suc k) =
    (call_unary handler (weather.delivery k) (after_calls handler weather c k)).1

-- The caller's variables are those behind its calls, and each call that was retried left the status
-- UNAVAILABLE.
abbrev pub Tracks :
    {S A : Type 0} → (S → S × Reply A) → Weather → Call S A → Retrying ℕ S A → Type 0
Tracks handler weather c r =
    (r.call ≡ after_calls handler weather c r.attempts)
    × ((k : ℕ)
        → k < r.retry_policy
        → (after_calls handler weather c (suc k)).status.error_code ≡ unavailable)

-- Before each round: as many calls as retries, which waited for the delays in their order.
pub record OnSchedule {S A : Type 0} (r : Retrying ℕ S A) : Type 0 where
  pub within : r.retry_policy ≤ 5
  pub calls : r.attempts ≡ r.retry_policy
  pub delays : r.waited ≡ take r.retry_policy schedule

-- At the end of the loop.
pub record Finished {S A : Type 0} (weather : Weather) (r : Retrying ℕ S A) (result : Bool)
    : Type 0 where
  pub within : r.retry_policy ≤ 5
  pub calls : r.attempts ≤ r.retry_policy + 1
  pub delays : r.waited ≡ take r.retry_policy schedule
  -- unless it is given up, the last status is final
  pub final :
      (result ≡ false)
      ⊎ (is_ok r.call.status ≡ true)
      ⊎ (is_unavailable r.call.status.error_code ≡ false)
      ⊎ (r.retry_policy ≡ 5)

abbrev RoundFits : {S A : Type 0} → Weather → Retrying ℕ S A → Round ℕ S A → Type 0
RoundFits weather r (co_return b r') = Finished weather r' b
RoundFits weather r (again r') = OnSchedule r' × (r'.retry_policy ≡ suc r.retry_policy)

take_more :
    (n d : ℕ) → get_elem? delays_s n ≡ some d → take n schedule ++ d ∷ [] ≡ take (suc n) schedule
take_more zero d h = ground arith
take_more (suc zero) d h = ground arith
take_more (suc (suc zero)) d h = ground arith
take_more (suc (suc (suc zero))) d h = ground arith
take_more (suc (suc (suc (suc zero)))) d h = ground arith
take_more (suc (suc (suc (suc (suc n))))) d h = cc

module _ {S A : Type 0} (handler : S → S × Reply A) (weather : Weather) where
  round_fits :
      (r : Retrying ℕ S A)
      → OnSchedule r
      → RoundFits weather r (retry_round default_retry_policy handler weather r)
  unfolding retry_round default_retry_policy
  round_fits r s = ground (arith, take_more r.retry_policy)

  RoundTracks : Call S A → Round ℕ S A → Type 0
  RoundTracks c (co_return b r) = Tracks handler weather c r
  RoundTracks c (again r) = Tracks handler weather c r

  is_unavailable_lem : (e : StatusCode) → is_unavailable e ≡ true → e ≡ unavailable
  is_unavailable_lem e h = ground arith

  retried_more :
      (c : Call S A) (n : ℕ)
      → ((k : ℕ) → k < n → (after_calls handler weather c (suc k)).status.error_code ≡ unavailable)
      → (after_calls handler weather c (suc n)).status.error_code ≡ unavailable
      → (k : ℕ) → k < suc n
      → (after_calls handler weather c (suc k)).status.error_code ≡ unavailable
  retried_more c n h u k l = elim (dec_lt k n) [
    | yes s ↦ h k s
    | no s ↦ let same : k ≡ n = omega arith in rw same u
  ]

  -- Whether the policy retries or not.
  decided :
      (c : Call S A) (n : ℕ) (b : Bool) (delay : Option ℕ)
      → ((k : ℕ) → k < n → (after_calls handler weather c (suc k)).status.error_code ≡ unavailable)
      → (b ≡ true → (after_calls handler weather c (suc n)).status.error_code ≡ unavailable)
      → (k : ℕ) → k < (if◌then◌else◌ {A = Option ℕ × ℕ} b (delay, suc n) (none, n)).1
      → (after_calls handler weather c (suc k)).status.error_code ≡ unavailable
  decided c n true delay h u k l = retried_more c n h (u refl) k l
  decided c n false delay h u k l = h k l

  RoundTracks-cases :
      (c : Call S A) (called fine rings : Bool) (delay : Option ℕ) (r₁ r₂ : Retrying ℕ S A)
      → Tracks handler weather c r₁
      → Tracks handler weather c r₂
      → RoundTracks c (
          if called
          then if fine then co_return true r₁ else elim delay [
            | none ↦ co_return true r₂
            | some d ↦
                let r₃ = record r₂ { waited = r₂.waited ++ d ∷ [] } in
                if rings then again r₃ else co_return false r₃
          ]
          else co_return false r₁)
  unfolding RoundTracks
  RoundTracks-cases c false fine rings delay r₁ r₂ h k = h
  RoundTracks-cases c true true rings delay r₁ r₂ h k = h
  RoundTracks-cases c true false rings none r₁ r₂ h k = k
  RoundTracks-cases c true false true (some d) r₁ r₂ h k = k
  RoundTracks-cases c true false false (some d) r₁ r₂ h k = k

  round_tracks :
      (c : Call S A) (r : Retrying ℕ S A)
      → OnSchedule r
      → Tracks handler weather c r
      → RoundTracks c (retry_round default_retry_policy handler weather r)
  unfolding retry_round default_retry_policy
  round_tracks c r s (m, u) =
      let now = (call_unary handler (weather.delivery r.attempts) r.call).1 in
      let made : now ≡ after_calls handler weather c (suc r.attempts) = rw m refl in
      let code : ltb r.retry_policy (length delays_s) && is_unavailable now.status.error_code ≡ true
          → (after_calls handler weather c (suc r.retry_policy)).status.error_code ≡ unavailable =
        λ h.
          rw (← s.calls, ← made) (is_unavailable_lem now.status.error_code (ground (arith, h))) in
      RoundTracks-cases c _ _ _ _ _ _ (made, u)
        (made, decided c r.retry_policy _ (get_elem? delays_s r.retry_policy) u code)

  -- What the loop comes to from `r` on, if `c` was the call at its beginning.
  Ends : Call S A → ℕ → Retrying ℕ S A → Type 0
  Ends c fuel r =
      (b : Bool) × (r' : Retrying ℕ S A) × (auto_retry_unary default_retry_policy handler weather
          fuel r
        ≡ some (b, r'))
      × Finished weather r' b
      × Tracks handler weather c r'

  loop :
      (c : Call S A) (fuel : ℕ) (r : Retrying ℕ S A) (x : Round ℕ S A)
      → retry_round default_retry_policy handler weather r ≡ x
      → RoundFits weather r x
      → RoundTracks c x
      → ((r' : Retrying ℕ S A)
          → OnSchedule r'
          → Tracks handler weather c r'
          → r'.retry_policy ≡ suc r.retry_policy
          → Ends c fuel r')
      → Ends c (suc fuel) r
  unfolding auto_retry_unary RoundTracks Ends
  loop c fuel r (co_return b r') e h t ih = (b, r', rw (e, auto_retry_unary), h, t)
  loop c fuel r (again r') e h t ih =
      let (b, r'', p, q, v) = ih r' h.0 t h.1 in (b, r'', rw (e, auto_retry_unary) p, q, v)

  rounds :
      (c : Call S A) (fuel : ℕ) (r : Retrying ℕ S A)
      → OnSchedule r
      → Tracks handler weather c r
      → 5 < fuel + r.retry_policy
      → Ends c fuel r
  rounds c zero r s t lt = absurd (omega (arith, s.within))
  rounds c (suc fuel) r s t lt =
      loop c fuel r _ refl (round_fits r s) (round_tracks c r s t)
        (λ r' s' t' e. rounds c fuel r' s' t' (omega arith))

  -- With the default policy the loop ends within six rounds, whatever becomes of the calls and the
  -- alarms: it makes at most one call more than it retries, each retry follows a call that left the
  -- status UNAVAILABLE, it retries at most five times, after the delays 1, 2, 3, 5 and 8 in this order,
  -- and unless it returns false the last status is OK, or is not UNAVAILABLE, or the five retries are
  -- used up. The caller's variables and the server are those behind the calls that it made.
  pub auto_retry_unary-Finished :
      (c : Call S A)
      → (b : Bool) × (r : Retrying ℕ S A) × (auto_retry_unary default_retry_policy handler weather 6
            (start c)
          ≡ some (b, r))
        × Finished weather r b
        × Tracks handler weather c r
  unfolding Ends
  auto_retry_unary-Finished c =
      rounds c 6 (start c) (record { within = omega arith; calls = refl; delays = refl })
        (refl, λ k l. absurd (omega arith)) (omega arith)
