-- ===== src/AsyncGrpc/Retry/Attempts.antt =====
-- What retrying does to the server, with any policy (`Client::AutoRetryUnary` of
-- async_grpc/async_grpc/client.hpp).
use async_sandbox.Prelude.{ℕ, zero, suc, ◌≡◌, refl, Bool, true, false, some, arith}
use async_sandbox.AsyncGrpc.Unary.{Reply, Delivery, lost, delivered, Call, call_unary}
use async_sandbox.AsyncGrpc.Retry.{
  RetryPolicy, Retrying, Weather, Round, co_return, again, retry_round, auto_retry_unary,
}

-- The calls whose handler ran: those whose reply arrived or was lost.
abbrev pub ran : Delivery → Bool
ran delivered = true
ran (lost st) = true
ran _ = false

module _ {S A : Type 0} (handler : S → S × Reply A) (delivery : ℕ → Delivery) where
  abbrev pub after_call : Bool → S → S
  after_call true s = (handler s).0
  after_call false s = s

  -- The server after the first `n` calls.
  abbrev pub server_after : ℕ → S → S
  server_after zero s = s
  server_after (suc n) s = after_call (ran (delivery n)) (server_after n s)

module _ {P S A : Type 0} (policy : RetryPolicy P) (handler : S → S × Reply A)
    (weather : Weather) where
  abbrev Follows : S → Retrying P S A → Type 0
  Follows s r = r.call.server ≡ server_after handler weather.delivery r.attempts s

  abbrev RoundFollows : S → Round P S A → Type 0
  RoundFollows s (co_return b r) = Follows s r
  RoundFollows s (again r) = Follows s r

  call_server :
      (d : Delivery) (c : Call S A)
      → (call_unary handler d c).1.server ≡ after_call handler weather.delivery (ran d) c.server
  unfolding call_unary
  call_server d c = ground arith

  round_follows :
      (s : S) (r : Retrying P S A)
      → Follows s r
      → RoundFollows s (retry_round policy handler weather r)
  unfolding retry_round
  round_follows s r h = ground (arith, call_server (weather.delivery r.attempts) r.call)

  follow :
      (s : S) (fuel : ℕ) (r r' : Retrying P S A) (x : Round P S A) (b : Bool)
      → retry_round policy handler weather r ≡ x
      → RoundFollows s x
      → ((r₁ : Retrying P S A)
          → Follows s r₁
          → auto_retry_unary policy handler weather fuel r₁ ≡ some (b, r')
          → Follows s r')
      → auto_retry_unary policy handler weather (suc fuel) r ≡ some (b, r')
      → Follows s r'
  unfolding auto_retry_unary
  follow s fuel r r' (co_return b' r₁) b e h ih p = ground (arith, e)
  follow s fuel r r' (again r₁) b e h ih p = ih r₁ h (rw (e, auto_retry_unary) at p)

  -- A call that is retried may have run its handler already: if the server stands at the
  -- beginning where the calls made so far leave it, from `s` on, and the loop returns, then in
  -- the end the handler has run from `s` on once for each call whose reply arrived or was lost,
  -- in this order, and for no other.
  pub auto_retry_unary-server_after :
      (fuel : ℕ) (r r' : Retrying P S A) (s : S) (b : Bool)
      → r.call.server ≡ server_after handler weather.delivery r.attempts s
      → auto_retry_unary policy handler weather fuel r ≡ some (b, r')
      → r'.call.server ≡ server_after handler weather.delivery r'.attempts s
  unfolding auto_retry_unary
  auto_retry_unary-server_after zero r r' s b h p = cc
  auto_retry_unary-server_after (suc fuel) r r' s b h p =
      follow s fuel r r' _ b refl (round_follows s r h)
        (λ r₁ h₁ p₁. auto_retry_unary-server_after fuel r₁ r' s b h₁ p₁) p
