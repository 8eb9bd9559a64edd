-- ===== src/Client/Calls/Order.antt =====
-- The handlers of async_grpc/client/main.cpp use their calls as gRPC allows.
use Prim.Native.String.{String}
use async_sandbox.Prelude.{
  ℕ, zero, suc, ◌≡◌, refl, Bool, true, false, Option, none, some, List, [], ◌∷◌, ◌++◌,
  if◌then◌else◌,
}
use async_sandbox.AsyncLib.Dialogue.{Dialogue, answer, ask, Seq, ret, request, and_then, denote}
use async_sandbox.AsyncGrpc.Status.{is_ok}
use async_sandbox.AsyncGrpc.Retry.{default_retry_policy}
use async_sandbox.Client.Tasks.{
  finish_unary, finish, alarm, Response, cancelled, received, Value, ask as asked, outcome, flag_of,
  status_of, response_of, call_unary, show_reply, nested_echo, after_policy, auto_retry_unary,
  unary_echo, write_messages, client_stream_echo, read_responses, server_stream_echo,
}
use async_sandbox.Client.Calls.{
  CallState, no_call, writing, reading, closed, over, use_writer, use_reader, use_call, behaves,
  Behaves,
}

abbrev is_unary : Value → Bool
is_unary (asked (finish_unary m)) = true
is_unary (asked (alarm d)) = true
is_unary _ = false

-- Unary calls and alarms only.
unfoldable IsUnary : Dialogue Value → Type 0
IsUnary (answer v) = Unit
IsUnary (ask v d) = (is_unary v ≡ true) × ((r : Value) → IsUnary (d r))

IsUnary-and_then :
    (d : Dialogue Value) (k : Value → Dialogue Value)
    → IsUnary d
    → ((v : Value) → IsUnary (k v))
    → IsUnary (and_then d k)
unfolding IsUnary and_then
IsUnary-and_then (answer v) k h n = n v
IsUnary-and_then (ask v d) k (h, t) n = (h, λ r. IsUnary-and_then (d r) k (t r) n)

IsUnary-if :
    (b : Bool) (y n : Seq Value)
    → IsUnary (denote y)
    → IsUnary (denote n)
    → IsUnary (denote (if b then y else n))
IsUnary-if true y n h k = h
IsUnary-if false y n h k = k

IsUnary-show_reply : (r : Value) → IsUnary (denote (show_reply r))
unfolding IsUnary denote
IsUnary-show_reply r = IsUnary-if (flag_of r) _ _ tt tt

IsUnary-call_unary : (m : String) → IsUnary (denote (call_unary m))
unfolding IsUnary denote call_unary
IsUnary-call_unary m = (refl, λ r. tt)

IsUnary-after_policy :
    (p : Option ℕ × ℕ) (r : Value) (again : ℕ → Seq Value)
    → ((n : ℕ) → IsUnary (denote (again n)))
    → IsUnary (denote (after_policy p r again))
unfolding IsUnary denote
IsUnary-after_policy (none, count) r again h = tt
IsUnary-after_policy (some d, count) r again h =
    (refl, λ x. IsUnary-if (flag_of x) (again count) (ret x) (h count) tt)

IsUnary-auto_retry : (fuel n : ℕ) (m : String) → IsUnary (denote (auto_retry_unary fuel n m))
unfolding IsUnary denote auto_retry_unary
IsUnary-auto_retry zero n m = tt
IsUnary-auto_retry (suc fuel) n m =
    IsUnary-and_then (denote (call_unary m)) _ (IsUnary-call_unary m) (λ r.
      IsUnary-if (flag_of r) _ _
        (IsUnary-if (is_ok (status_of r)) (ret r) _ tt (
          IsUnary-after_policy (default_retry_policy n (status_of r)) r _
            (λ k. IsUnary-auto_retry fuel k m)))
        tt)

-- A task with unary calls and alarms only behaves.
unary-Behaves : (d : Dialogue Value) (rs : List Value) → IsUnary d → Behaves no_call d rs
unfolding IsUnary behaves use_call
unary-Behaves (answer v) rs h = refl
unary-Behaves (ask (asked (finish_unary m)) d) [] h = refl
unary-Behaves (ask (asked (finish_unary m)) d) (r ∷ rs) (h, t) = unary-Behaves (d r) rs (t r)
unary-Behaves (ask (asked (alarm n)) d) [] h = refl
unary-Behaves (ask (asked (alarm n)) d) (r ∷ rs) (h, t) = unary-Behaves (d r) rs (t r)
unary-Behaves (ask v d) rs (h, t) = cc

-- Both cases of a flag, which the state of the call depends on as well.
if-Behaves :
    (b : Bool) (st st' : CallState) (y n : Seq Value) (rs : List Value)
    → Behaves st (denote y) rs
    → Behaves st' (denote n) rs
    → Behaves (if b then st else st') (denote (if b then y else n)) rs
if-Behaves true st st' y n rs h k = h
if-Behaves false st st' y n rs h k = k

same-Behaves :
    (b : Bool) (st : CallState) (y n : Seq Value) (rs : List Value)
    → Behaves st (denote y) rs
    → Behaves st (denote n) rs
    → Behaves st (denote (if b then y else n)) rs
same-Behaves true st y n rs h k = h
same-Behaves false st y n rs h k = k

ret-Behaves : (st : CallState) (v : Value) (rs : List Value) → Behaves st (denote (ret v)) rs
unfolding behaves denote
ret-Behaves st v rs = refl

show_reply-Behaves :
    (st : CallState) (r : Value) (rs : List Value) → Behaves st (denote (show_reply r)) rs
show_reply-Behaves st r rs =
    same-Behaves (flag_of r) st _ _ rs (ret-Behaves st _ rs) (ret-Behaves st _ rs)

finish-Behaves :
    (k : Value → Seq Value) (rs : List Value)
    → ((r : Value) (ss : List Value) → Behaves over (denote (k r)) ss)
    → Behaves closed (denote (request (asked finish) k)) rs
unfolding behaves use_call use_writer denote
finish-Behaves k [] h = refl
finish-Behaves k (r ∷ rs) h = h r rs

write_messages-Behaves :
    (ms : List String) (rs : List Value) → Behaves writing (denote (write_messages ms)) rs
unfolding behaves use_call use_writer denote write_messages
write_messages-Behaves [] [] = refl
write_messages-Behaves [] (r ∷ rs) =
    same-Behaves (flag_of r) closed _ _ rs
      (finish-Behaves show_reply rs (λ x ss. show_reply-Behaves over x ss))
      (ret-Behaves closed (outcome cancelled) rs)
write_messages-Behaves (m ∷ ms) [] = refl
write_messages-Behaves (m ∷ ms) (r ∷ rs) =
    if-Behaves (flag_of r) writing closed _ _ rs (write_messages-Behaves ms rs)
      (ret-Behaves closed (outcome cancelled) rs)

client_stream_echo-Behaves : (rs : List Value) → Behaves no_call (denote client_stream_echo) rs
unfolding behaves use_call denote client_stream_echo
client_stream_echo-Behaves [] = refl
client_stream_echo-Behaves (r ∷ rs) =
    if-Behaves (flag_of r) writing over _ _ rs
      (write_messages-Behaves ("Hello!" ∷ "World!" ∷ "Bye!" ∷ []) rs)
      (ret-Behaves over (outcome cancelled) rs)

read_responses-Behaves :
    (fuel : ℕ) (before : List Response) (rs : List Value)
    → Behaves reading (denote (read_responses fuel before)) rs
unfolding behaves use_call use_reader denote read_responses
read_responses-Behaves zero before rs = refl
read_responses-Behaves (suc fuel) before [] = refl
read_responses-Behaves (suc fuel) before (r ∷ rs) =
    if-Behaves (flag_of r) reading closed _ _ rs
      (read_responses-Behaves fuel (before ++ response_of r ∷ []) rs)
      (finish-Behaves _ rs (λ x ss.
        same-Behaves (flag_of x) over _ _ ss
          (ret-Behaves over (outcome (received (status_of x) before)) ss)
          (ret-Behaves over (outcome cancelled) ss)))

server_stream_echo-Behaves :
    (fuel : ℕ) (rs : List Value) → Behaves no_call (denote (server_stream_echo fuel)) rs
unfolding behaves use_call denote server_stream_echo
server_stream_echo-Behaves fuel [] = refl
server_stream_echo-Behaves fuel (r ∷ rs) =
    if-Behaves (flag_of r) reading over _ _ rs (read_responses-Behaves fuel [] rs)
      (ret-Behaves over (outcome cancelled) rs)

unary_echo-Behaves : (rs : List Value) → Behaves no_call (denote unary_echo) rs
unfolding denote unary_echo
unary_echo-Behaves rs = unary-Behaves _ rs (
    IsUnary-and_then (denote (auto_retry_unary 6 0 "hello")) _ (IsUnary-auto_retry 6 0 "hello")
      IsUnary-show_reply)

nested_echo-Behaves : (rs : List Value) → Behaves no_call (denote nested_echo) rs
unfolding denote nested_echo IsUnary
nested_echo-Behaves rs = unary-Behaves _ rs (
    IsUnary-and_then _ _
      (IsUnary-and_then _ _
        (IsUnary-and_then (denote (call_unary "hello")) _ (IsUnary-call_unary "hello")
          IsUnary-show_reply)
        (λ v. tt))
      (λ v. tt))

-- Whatever gRPC replies, and however many rounds their loops are given, the handlers of the client, but
-- for the bidirectional one, use a stream call only if it has started; they write up to the first write
-- that fails or up to `WritesDone`, or read up to the first read that fails, and only then finish the
-- call, at most once, and use it no more.
pub handlers-Behave :
    (fuel : ℕ) (rs : List Value)
    → Behaves no_call (denote nested_echo) rs
      × Behaves no_call (denote unary_echo) rs
      × Behaves no_call (denote client_stream_echo) rs
      × Behaves no_call (denote (server_stream_echo fuel)) rs
handlers-Behave fuel rs = (
  nested_echo-Behaves rs,
  unary_echo-Behaves rs,
  client_stream_echo-Behaves rs,
  server_stream_echo-Behaves fuel rs,
)
