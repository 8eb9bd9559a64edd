-- ===== src/Client/Retries.antt =====
-- The coroutine `AutoRetryUnary`, with the requests that it makes of its executor, against the loop of
-- `AsyncGrpc.Retry` (async_grpc/async_grpc/client.hpp).
use Prim.Native.String.{String}
use mathlib.Core.Option.{some-injective}
use async_sandbox.Prelude.{
  ℕ, zero, suc, ◌-◌, ◌≡◌, refl, sym, ap, ◌∙◌, Bool, true, false, Option, some, List, [], ◌∷◌, ◌++◌,
  arith, if◌then◌else◌, Bool-cases, Option-cases, inl, inr,
}
use async_sandbox.AsyncLib.Dialogue.{Dialogue, answer, ask as asks, denote, and_then}
use async_sandbox.AsyncGrpc.Status.{is_ok, ok_status}
use async_sandbox.AsyncGrpc.Unary.{Reply, Call, call_unary as make_call}
use async_sandbox.AsyncGrpc.Retry.{
  start, Retrying, Weather, default_retry_policy, retry_round, auto_retry_unary as retry_loop,
}
use async_sandbox.Client.Tasks.{
  finish_unary, alarm, Response, nothing, Value, ask, reply, Outcome, cancelled, received, outcome,
  flag_of, received_from, show_reply, unary_echo, auto_retry_unary,
}
use async_sandbox.AsyncGrpc.Retry.Delays.{auto_retry_unary-Finished}
use async_sandbox.Client.Outcomes.{converse}

-- The surroundings of the coroutine: the call, and what has been tried so far.
pub record Trying (S : Type 0) : Type 0 where
  pub call : Call S Response
  pub attempts : ℕ
  pub waited : List ℕ

module _ {S : Type 0} (handler : String → S → S × Reply Response) (weather : Weather) where
  abbrev pub unary_env : Trying S → Value → Value × Trying S
  unary_env s (ask (finish_unary m)) =
      let (called, c) = make_call (handler m) (weather.delivery s.attempts) s.call in
      (reply called c.status c.response, record s { call = c; attempts = suc s.attempts })
  unary_env s (ask (alarm d)) = (
    reply (weather.rings (s.attempts - 1)) ok_status nothing,
    record s { waited = s.waited ++ d ∷ [] },
  )
  unary_env s v = (v, s)

  abbrev pub trying : Retrying ℕ S Response → Trying S
  trying r = record { call = r.call; attempts = r.attempts; waited = r.waited }

  -- What `UnaryEcho` shows of a reply, and of the end of the loop.
  abbrev shown : Value → Outcome
  shown v = if flag_of v then received_from v else cancelled

  abbrev pub result : Bool → Call S Response → Outcome
  result false c = cancelled
  result true c = received c.status (if is_ok c.status then c.response ∷ [] else [])

  abbrev Agrees : String → ℕ → Retrying ℕ S Response → Bool → Retrying ℕ S Response → Type 0
  Agrees m fuel r b r' =
      (v : Value) × (converse unary_env (trying r) (denote (auto_retry_unary fuel r.retry_policy m))
        ≡ (v, trying r'))
      × (shown v ≡ result b r'.call)

  end-Agrees :
      (m : String) (fuel : ℕ) (r r₀ r' : Retrying ℕ S Response) (v : Value) (b : Bool)
      → converse unary_env (trying r) (denote (auto_retry_unary fuel r.retry_policy m))
        ≡ (v, trying r₀)
      → retry_loop default_retry_policy (handler m) weather fuel r ≡ some (flag_of v, r₀)
      → shown v ≡ result (flag_of v) r₀.call
      → retry_loop default_retry_policy (handler m) weather fuel r ≡ some (b, r')
      → Agrees m fuel r b r'
  end-Agrees m fuel r r₀ r' v b e p z h =
      let same : (flag_of v, r₀) ≡ (b, r') = some-injective _ _ (sym p ∙ h) in
      (
        v,
        e ∙ ap (λ (x : Bool × Retrying ℕ S Response). (v, trying x.1)) same,
        z ∙ ap (λ (x : Bool × Retrying ℕ S Response). result x.0 x.1.call) same,
      )

  converse_bind :
      (d : Dialogue Value) (k : Value → Dialogue Value) (s : Trying S)
      → converse unary_env s (and_then d k)
        ≡ converse unary_env (converse unary_env s d).1 (k (converse unary_env s d).0)
  unfolding and_then
  converse_bind (answer v) k s = refl
  converse_bind (asks q d) k s = converse_bind (d (unary_env s q).0) k (unary_env s q).1

  show_reply_lem : (v : Value) → denote (show_reply v) ≡ answer (outcome (shown v))
  unfolding denote
  show_reply_lem v = elim (Bool-cases (flag_of v)) [ inl y ↦ rw y refl | inr f ↦ rw f refl ]

  agrees :
      (m : String) (fuel : ℕ) (r : Retrying ℕ S Response) (b : Bool) (r' : Retrying ℕ S Response)
      → retry_loop default_retry_policy (handler m) weather fuel r ≡ some (b, r')
      → Agrees m fuel r b r'
  unfolding denote auto_retry_unary and_then retry_loop retry_round
  agrees m zero r b r' h = cc
  agrees m (suc fuel) r b r' h = elim (Bool-cases called) [
    | inr f ↦
        end-Agrees m (suc fuel) r r₁ r' v b (rw (converse, f) refl) (rw (retry_loop, f) refl)
          (rw f refl) h
    | inl y ↦ elim (Bool-cases (is_ok c.status)) [
      | inl o ↦
          end-Agrees m (suc fuel) r r₁ r' v b (rw (converse, y, o) refl)
            (rw (retry_loop, y, o) refl) (rw y refl) h
      | inr n ↦ elim (Option-cases decision) [
        | inl q ↦
            end-Agrees m (suc fuel) r (record r₁ { retry_policy = count }) r' v b
              (rw (converse, y, n, q) refl) (rw (retry_loop, y, n, q) refl) (rw y refl) h
        | inr (d, q) ↦ elim (Bool-cases (weather.rings r.attempts)) [
          | inl u ↦
              let (v', e, g) =
                agrees m fuel (rung d) b r' (sym (rw (retry_loop, y, n, q, u) refl) ∙ h) in
              (v', rw (converse, y, n, q, back, u) refl ∙ e, g)
          | inr f ↦
              end-Agrees m (suc fuel) r (rung d) r' (reply false ok_status nothing) b
                (rw (converse, y, n, q, back, f) refl) (rw (retry_loop, y, n, q, f) refl) refl h
        ]
      ]
    ]
  ]
    where
      called : Bool
      called = (make_call (handler m) (weather.delivery r.attempts) r.call).0

      c : Call S Response
      c = (make_call (handler m) (weather.delivery r.attempts) r.call).1

      v : Value
      v = reply called c.status c.response

      r₁ : Retrying ℕ S Response
      r₁ = record r { call = c; attempts = suc r.attempts }

      decision : Option ℕ
      decision = (default_retry_policy r.retry_policy c.status).0

      count : ℕ
      count = (default_retry_policy r.retry_policy c.status).1

      rung : ℕ → Retrying ℕ S Response
      rung d = record r₁ { retry_policy = count; waited = r.waited ++ d ∷ [] }

      back : suc r.attempts - 1 ≡ r.attempts
      back = omega arith

  -- `UnaryEcho` comes to an end whatever becomes of its calls and its alarms: it makes the calls and
  -- waits for the delays of the loop `AutoRetryUnary`, which ends within six rounds, and shows the
  -- last status, with the response if it is OK, or that the call was cancelled if the loop returns
  -- false.
  pub unary_echo_outcome :
      (c : Call S Response)
      → (b : Bool) × (r : Retrying ℕ S Response) × (retry_loop default_retry_policy
            (handler "hello")
            weather
            6
            (start c)
          ≡ some (b, r))
        × (converse unary_env (trying (start c)) (denote unary_echo)
            ≡ (outcome (result b r.call), trying r))
  unfolding denote unary_echo
  unary_echo_outcome c =
      let (b, r, h, f, _) = auto_retry_unary-Finished (handler "hello") weather c in
      let (v, e, z) = agrees "hello" 6 (start c) b r h in
      (
        b,
        r,
        h,
        converse_bind (denote (auto_retry_unary 6 0 "hello")) (λ v. denote (show_reply v))
              (trying (start c))
            ∙ rw e (rw (show_reply_lem v, z) refl),
      )
