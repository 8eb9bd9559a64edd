-- ===== src/Server/Handlers/Agreement.antt =====
-- The tasks of the streams of async_grpc/server/echo_service_impl.cpp against what Server.EchoService
-- says that they send.
use Prim.Native.String.{String}
use mathlib.Core.Option.{some-injective}
use async_sandbox.Prelude.{
  ℕ, zero, suc, ◌+◌, ◌*◌, ◌%◌, ◌<◌, leb, ◌≡◌, refl, subst, Bool, true, false, inl, inr, Option,
  none, some, Option-cases, List, [], ◌∷◌, ◌++◌, length, arith, if◌then◌else◌,
}
use async_sandbox.AsyncLib.Dialogue.{Dialogue, Seq, request, denote}
use async_sandbox.AsyncGrpc.Status.{Status, ok_status}
use async_sandbox.Server.EchoService.{
  u32_mod, write_numbers, server_stream_echo, read_messages, client_stream_echo,
}
use async_sandbox.Server.EchoService.Streams.{numbers_from, server_stream_echo_lem}
use async_sandbox.Server.Contexts.{
  messages, numbered, Operation, read, write, finish, alarm, Value, asked, reply, returned,
  finish_with, talk,
}
use async_sandbox.Server.Handlers.{
  read_requests, client_stream_echo_impl, write_responses, server_stream_echo_impl,
}

-- An alarm and a write for each number, and the end of the call.
abbrev pub stream_of : String → ℕ → List ℕ → Status → List Operation
stream_of m d [] st = finish none st ∷ []
stream_of m d (n ∷ ns) st = alarm d ∷ write (numbered m n) ∷ stream_of m d ns st

-- What the handler comes to.
abbrev pub Ends : Dialogue Value → List Value → List Operation → Type 0
Ends d rs qs = talk d rs ≡ (qs, some returned)

finish-Ends :
    (q : Operation) (rs : List Value) → 0 < length rs → Ends (denote (finish_with q)) rs (q ∷ [])
unfolding denote talk
finish-Ends q [] l = absurd (omega arith)
finish-Ends q (r ∷ rs) l = refl

two-Ends :
    (p q : Operation) (next : Seq Value) (k : ℕ) (qs : List Operation) (rs : List Value)
    → 2 * suc k < length rs
    → ((ss : List Value) → 2 * k < length ss → Ends (denote next) ss qs)
    → Ends (denote (request (asked p) (λ x. request (asked q) (λ y. next)))) rs (p ∷ q ∷ qs)
unfolding denote talk
two-Ends p q next k qs [] l h = absurd (omega arith)
two-Ends p q next k qs (a ∷ []) l h = absurd (omega arith)
two-Ends p q next k qs (a ∷ b ∷ ss) l h = rw (h ss (omega (arith, l))) refl

-- One test of the loop's condition.
round-Ends :
    (m : String) (d n : ℕ) (b : Bool) (o : Option (List ℕ)) (next : Seq Value) (ns : List ℕ)
    (rs : List Value)
    → (if b then (elim o [ none ↦ none | some ns' ↦ some (n ∷ ns') ]) else some []) ≡ some ns
    → 2 * length ns < length rs
    → ((ns' : List ℕ) (ss : List Value)
        → o ≡ some ns'
        → 2 * length ns' < length ss
        → Ends (denote next) ss (stream_of m d ns' ok_status))
    → Ends
        (denote (
          if b
          then request (asked (alarm d)) (λ x. request (asked (write (numbered m n))) (λ y. next))
          else finish_with (finish none ok_status)))
        rs
        (stream_of m d ns ok_status)
round-Ends m d n false o next ns rs h l k =
    let same : [] ≡ ns = some-injective _ _ h in
    subst
      (λ (x : List ℕ).
        Ends (denote (finish_with (finish none ok_status))) rs (stream_of m d x ok_status))
      same (finish-Ends (finish none ok_status) rs (omega (arith, l)))
round-Ends m d n true none next ns rs h l k = cc
round-Ends m d n true (some ns') next ns rs h l k =
    let same : n ∷ ns' ≡ ns = some-injective _ _ h in
    subst
      (λ (x : List ℕ).
        Ends
          (denote
            (request (asked (alarm d)) (λ x. request (asked (write (numbered m n))) (λ y. next))))
          rs (stream_of m d x ok_status))
      same
      (two-Ends (alarm d) (write (numbered m n)) next (length ns') (stream_of m d ns' ok_status) rs
        (rw (← same) at l) (λ ss e. k ns' ss refl e))

write_responses-Ends :
    (fuel : ℕ) (m : String) (d n count : ℕ) (ns : List ℕ) (rs : List Value)
    → write_numbers fuel n count ≡ some ns
    → 2 * length ns < length rs
    → Ends (denote (write_responses fuel m d n count)) rs (stream_of m d ns ok_status)
unfolding write_responses write_numbers
write_responses-Ends zero m d n count ns rs h l = cc
write_responses-Ends (suc fuel) m d n count ns rs h l =
    round-Ends m d n (leb n count) (write_numbers fuel ((n + 1) % u32_mod) count)
      (write_responses fuel m d ((n + 1) % u32_mod) count) ns rs h l
      (λ ns' ss e k. write_responses-Ends fuel m d ((n + 1) % u32_mod) count ns' ss e k)

-- The numbers, and the status, that Server.EchoService says.
server_stream_echo_impl-Ends :
    (fuel : ℕ) (m : String) (d count : ℕ) (ns : List ℕ) (st : Status) (rs : List Value)
    → server_stream_echo fuel count ≡ some (ns, st)
    → 2 * length ns < length rs
    → Ends (denote (server_stream_echo_impl fuel m d count)) rs (stream_of m d ns st)
unfolding server_stream_echo_impl server_stream_echo
server_stream_echo_impl-Ends fuel m d count ns st rs h l =
    elim (Option-cases (write_numbers fuel 1 count)) [
      | inl q ↦ cc (rw (server_stream_echo, q) at h)
      | inr (ns', q) ↦
          let same : (ns', ok_status) ≡ (ns, st) =
            some-injective _ _ (rw (server_stream_echo, q) at h) in
          subst
            (λ (x : List ℕ × Status).
              2 * length x.0 < length rs
              → Ends (denote (write_responses fuel m d 1 count)) rs (stream_of m d x.0 x.1))
            same (λ l'. write_responses-Ends fuel m d 1 count ns' rs q l') l
    ]

length-numbers_from : (n k : ℕ) → length (numbers_from n k) ≡ k
length-numbers_from n zero = refl
length-numbers_from n (suc k) = omega (arith, length-numbers_from (suc n) k)

-- For a count below 2^32 - 1 and with a reply to each operation, whatever it is, the task of the
-- handler of a server stream sets an alarm and writes the message, for each number from 1 to the count
-- in turn, then finishes with the status OK, and returns; one test of its loop more than the count is
-- enough.
pub server_stream_echo_impl_numbers :
    (m : String) (d count : ℕ) (rs : List Value)
    → count + 1 < u32_mod
    → 2 * count < length rs
    → Ends
        (denote (server_stream_echo_impl (count + 1) m d count))
        rs
        (stream_of m d (numbers_from 1 count) ok_status)
server_stream_echo_impl_numbers m d count rs small l =
    server_stream_echo_impl-Ends (count + 1) m d count (numbers_from 1 count) ok_status rs
      (server_stream_echo_lem count small) (rw (length-numbers_from 1 count) l)

-- Reads that succeed with these messages, and one that fails.
abbrev pub reads_of : List String → List Value → List Value
reads_of [] rs = rs
reads_of (m ∷ ms) rs = reply true m ∷ reads_of ms rs

abbrev pub read_each : List String → List Operation → List Operation
read_each [] qs = qs
read_each (m ∷ ms) qs = read ∷ read_each ms qs

read_requests-Ends :
    (fuel : ℕ) (before ms : List String) (x : String) (y : Value) (rs : List Value)
    → length ms < fuel
    → Ends
        (denote (read_requests fuel before))
        (reads_of ms (reply false x ∷ y ∷ rs))
        (read_each ms (read ∷ finish (some (messages (read_messages before ms))) ok_status ∷ []))
unfolding read_requests read_messages denote talk
read_requests-Ends zero before ms x y rs l = absurd (omega arith)
read_requests-Ends (suc fuel) before [] x y rs l = refl
read_requests-Ends (suc fuel) before (m ∷ ms) x y rs l =
    rw (read_requests-Ends fuel (before ++ m ∷ []) ms x y rs (omega (arith, l))) refl

-- When the reads of a client stream give these messages and then fail, the task of its handler reads
-- once more than there are messages, then finishes with the response and the status that
-- Server.EchoService says, and returns; more rounds than messages are enough.
pub client_stream_echo_impl-Ends :
    (fuel : ℕ) (ms : List String) (x : String) (y : Value) (rs : List Value)
    → length ms < fuel
    → Ends (denote (client_stream_echo_impl fuel)) (reads_of ms (reply false x ∷ y ∷ rs)) (
        read_each ms (
          read ∷ finish (some (messages (client_stream_echo ms).0)) (client_stream_echo ms).1 ∷ []))
unfolding client_stream_echo_impl client_stream_echo
client_stream_echo_impl-Ends fuel ms x y rs l = read_requests-Ends fuel [] ms x y rs l
