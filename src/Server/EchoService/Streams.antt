-- ===== src/Server/EchoService/Streams.antt =====
-- The streams of async_grpc/server/echo_service_impl.cpp.
use Prim.Native.String.{String}
use native.Mathlib.Nat.{mod-eq_of_lt, mod-lt}
use mathlib.Core.List.{append-nil, append_assoc}
use async_sandbox.Prelude.{
  ℕ, zero, suc, ◌+◌, ◌-◌, ◌%◌, ◌<◌, ◌≡◌, refl, ap, ◌∙◌, none, some, List, [], ◌∷◌, ◌++◌, arith,
}
use async_sandbox.AsyncGrpc.Status.{ok_status}
use async_sandbox.Server.EchoService.{
  read_messages, client_stream_echo, u32_mod, write_numbers, server_stream_echo,
}

read_messages_lem : (ms requests : List String) → read_messages ms requests ≡ ms ++ requests
unfolding read_messages
read_messages_lem ms [] = simp append-nil
read_messages_lem ms (m ∷ rest) =
    read_messages_lem (ms ++ m ∷ []) rest ∙ append_assoc ms (m ∷ []) rest

-- A client stream is answered with all its messages, in their order, and OK.
pub client_stream_echo_lem : (ms : List String) → client_stream_echo ms ≡ (ms, ok_status)
unfolding client_stream_echo
client_stream_echo_lem ms = ap (λ l. (l, ok_status)) (read_messages_lem [] ms)

-- n, n + 1, …: so many numbers.
abbrev pub numbers_from : ℕ → ℕ → List ℕ
numbers_from n zero = []
numbers_from n (suc k) = n ∷ numbers_from (suc n) k

write_numbers_lem :
    (k fuel n count : ℕ)
    → n + k ≡ suc count
    → count + 1 < u32_mod
    → k < fuel
    → write_numbers fuel n count ≡ some (numbers_from n k)
unfolding write_numbers
write_numbers_lem k zero n count e l f = absurd (omega arith)
write_numbers_lem zero (suc fuel) n count e l f = ground arith
write_numbers_lem (suc k) (suc fuel) n count e l f =
    ground (arith, write_numbers_lem k fuel (suc n) count, mod-eq_of_lt {n = n + 1} {m = u32_mod})

-- If `count + 1` fits the 32 bits of the counter, a server stream has the numbers 1 to `count`, in
-- order, and `count + 1` tests of its loop are enough.
pub server_stream_echo_lem :
    (count : ℕ)
    → count + 1 < u32_mod
    → server_stream_echo (count + 1) count ≡ some (numbers_from 1 count, ok_status)
unfolding server_stream_echo
server_stream_echo_lem count l =
    rw (
      server_stream_echo,
      write_numbers_lem count (count + 1) 1 count (omega arith) l (omega arith),
    )

write_numbers_endless : (fuel n : ℕ) → n < u32_mod → write_numbers fuel n (u32_mod - 1) ≡ none
unfolding write_numbers
write_numbers_endless zero n l = refl
write_numbers_endless (suc fuel) n l =
    ground (arith, write_numbers_endless fuel ((n + 1) % u32_mod), mod-lt (n + 1) {m = u32_mod})

-- For the largest count the loop never ends: its counter wraps before it can pass the bound.
pub server_stream_echo_endless : (fuel : ℕ) → server_stream_echo fuel (u32_mod - 1) ≡ none
unfolding server_stream_echo
server_stream_echo_endless fuel =
    rw (server_stream_echo, write_numbers_endless fuel 1 (omega arith))
