-- ===== src/Server/Handlers/Calls.antt =====
-- What gRPC asks of the handler of a call (async_grpc/server): it finishes its call once, last of all.
use Prim.Native.String.{String}
use async_sandbox.Prelude.{
  ℕ, zero, suc, ◌+◌, ◌%◌, ◌<◌, leb, ◌≡◌, refl, Bool, true, false, Option, none, some, List, [], ◌∷◌,
  ◌++◌, length, arith, if◌then◌else◌, ◌&&◌,
}
use async_sandbox.AsyncLib.Dialogue.{Dialogue, ask, Seq, denote}
use async_sandbox.AsyncGrpc.Status.{Status, ok_status}
use async_sandbox.AsyncGrpc.Unary.{Reply, finish as send, finish_with_error as send_error}
use async_sandbox.Server.EchoService.{u32_mod}
use async_sandbox.Server.VariableService.{Request, write_impl, read_impl, del_impl}
use async_sandbox.Server.VariableService.Map.{Storage}
use async_sandbox.Server.Contexts.{
  Response, echoed, messages, numbered, was_inserted, value, was_deleted, Operation, read, write,
  finish, alarm, unary_offers, client_stream_offers, server_stream_offers, Value, asked, returned,
  flag_of, request_of, finish_with, finish_unary, talk,
}
use async_sandbox.Server.Handlers.{
  unary_echo_impl, read_requests, client_stream_echo_impl, write_responses, server_stream_echo_impl,
  Call, unary_echo, client_stream_echo, server_stream_echo, variable, answer_request, handler,
  offers,
}

-- Whether the operations of a call are among those that its context offers, with exactly one that
-- finishes it, the last of all, if the handler has returned; one that has not may still come to it.
unfoldable pub keeps_order : (Operation → Bool) → List Operation → Option Value → Bool
keeps_order o [] none = true
keeps_order o [] (some v) = false
keeps_order o (alarm d ∷ qs) e = keeps_order o qs e
keeps_order o (read ∷ qs) e = o read && keeps_order o qs e
keeps_order o (write r ∷ qs) e = o (write r) && keeps_order o qs e
keeps_order o (q ∷ []) none = o q
keeps_order o (q ∷ []) (some returned) = o q
keeps_order o (q ∷ qs) e = false

-- The operations that a handler asks for, with these replies, keep the order.
abbrev pub KeepsOrder : (Operation → Bool) → Dialogue Value → List Value → Type 0
KeepsOrder o d rs = keeps_order o (talk d rs).0 (talk d rs).1 ≡ true

finish_with-KeepsOrder :
    (o : Operation → Bool) (r : Option Response) (st : Status) (rs : List Value)
    → o (finish r st) ≡ true
    → KeepsOrder o (denote (finish_with (finish r st))) rs
unfolding denote talk keeps_order
finish_with-KeepsOrder o r st [] h = h
finish_with-KeepsOrder o r st (x ∷ rs) h = h

finish_unary-KeepsOrder :
    {A : Type 0} (f : A → Response) (p : Reply A) (rs : List Value)
    → KeepsOrder unary_offers (denote (finish_unary f p)) rs
unfolding denote talk keeps_order unary_offers
finish_unary-KeepsOrder f (send a st) [] = refl
finish_unary-KeepsOrder f (send a st) (r ∷ rs) = refl
finish_unary-KeepsOrder f (send_error st) [] = refl
finish_unary-KeepsOrder f (send_error st) (r ∷ rs) = refl

answer_request-KeepsOrder :
    (s : Storage) (q : Request) (rs : List Value)
    → KeepsOrder unary_offers (denote (answer_request s q)) rs
unfolding answer_request
answer_request-KeepsOrder s (Request.write key v) rs =
    finish_unary-KeepsOrder was_inserted (write_impl s key v).1 rs
answer_request-KeepsOrder s (Request.read key) rs =
    finish_unary-KeepsOrder value (read_impl s key).1 rs
answer_request-KeepsOrder s (Request.del key) rs =
    finish_unary-KeepsOrder was_deleted (del_impl s key).1 rs

-- The operations of a read, in front of what follows each request.
read-KeepsOrder :
    (fuel : ℕ) (next : Value → Dialogue Value) (rs : List Value)
    → ((r : Value) (ss : List Value)
        → length ss < fuel
        → KeepsOrder client_stream_offers (next r) ss)
    → length rs < suc fuel
    → KeepsOrder client_stream_offers (ask (asked read) next) rs
unfolding talk keeps_order client_stream_offers
read-KeepsOrder fuel next [] h l = refl
read-KeepsOrder fuel next (r ∷ rs) h l = h r rs (omega (arith, l))

if-KeepsOrder :
    (o : Operation → Bool) (b : Bool) (y n : Seq Value) (rs : List Value)
    → KeepsOrder o (denote y) rs
    → KeepsOrder o (denote n) rs
    → KeepsOrder o (denote (if b then y else n)) rs
if-KeepsOrder o true y n rs h k = h
if-KeepsOrder o false y n rs h k = k

read_requests-KeepsOrder :
    (fuel : ℕ) (before : List String) (rs : List Value)
    → length rs < fuel
    → KeepsOrder client_stream_offers (denote (read_requests fuel before)) rs
unfolding read_requests denote client_stream_offers
read_requests-KeepsOrder zero before rs l = absurd (omega arith)
read_requests-KeepsOrder (suc fuel) before rs l =
    read-KeepsOrder fuel _ rs
      (λ r ss k.
        if-KeepsOrder client_stream_offers (flag_of r) _ _ ss
          (read_requests-KeepsOrder fuel (before ++ request_of r ∷ []) ss k)
          (finish_with-KeepsOrder client_stream_offers (some (messages before)) ok_status ss refl))
      l

-- The operations of one round, in front of what a further dialogue asks for.
round-KeepsOrder :
    (fuel d : ℕ) (w : Response) (next : Dialogue Value) (rs : List Value)
    → ((ss : List Value) → length ss < fuel → KeepsOrder server_stream_offers next ss)
    → length rs < suc fuel
    → KeepsOrder server_stream_offers
        (ask (asked (alarm d)) (λ x. ask (asked (write w)) (λ y. next)))
        rs
unfolding talk keeps_order server_stream_offers
round-KeepsOrder fuel d w next [] h l = refl
round-KeepsOrder fuel d w next (a ∷ []) h l = refl
round-KeepsOrder fuel d w next (a ∷ b ∷ ss) h l = h ss (omega (arith, l))

write_responses-KeepsOrder :
    (fuel : ℕ) (m : String) (d n count : ℕ) (rs : List Value)
    → length rs < fuel
    → KeepsOrder server_stream_offers (denote (write_responses fuel m d n count)) rs
unfolding write_responses denote server_stream_offers
write_responses-KeepsOrder zero m d n count rs l = absurd (omega arith)
write_responses-KeepsOrder (suc fuel) m d n count rs l =
    if-KeepsOrder server_stream_offers (leb n count) _ _ rs
      (round-KeepsOrder fuel d (numbered m n) _ rs
        (λ ss k. write_responses-KeepsOrder fuel m d ((n + 1) % u32_mod) count ss k) l)
      (finish_with-KeepsOrder server_stream_offers none ok_status rs refl)

unary_ok : (m : String) → unary_offers (finish (some (echoed m)) ok_status) ≡ true
unfolding unary_offers
unary_ok m = refl

-- Whatever gRPC replies, the handlers of both services, but for that of the bidirectional stream, ask
-- only for operations that the context of their call offers, finish the call exactly once, and do that
-- last of all before they return; more rounds than replies are enough for their loops.
pub handler-KeepsOrder :
    (fuel : ℕ) (c : Call) (rs : List Value)
    → length rs < fuel
    → KeepsOrder (offers c) (denote (handler fuel c)) rs
unfolding handler unary_echo_impl client_stream_echo_impl server_stream_echo_impl
handler-KeepsOrder fuel (unary_echo m) rs l =
    finish_with-KeepsOrder unary_offers (some (echoed m)) ok_status rs (unary_ok m)
handler-KeepsOrder fuel client_stream_echo rs l = read_requests-KeepsOrder fuel [] rs l
handler-KeepsOrder fuel (server_stream_echo m d count) rs l =
    write_responses-KeepsOrder fuel m d 1 count rs l
handler-KeepsOrder fuel (variable s q) rs l = answer_request-KeepsOrder s q rs
