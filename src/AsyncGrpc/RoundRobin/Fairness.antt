-- ===== src/AsyncGrpc/RoundRobin/Fairness.antt =====
-- Round robin serves all alike (async_grpc/async_grpc/client.cpp, server.cpp).
use native.Mathlib.Nat.{mod-lt, mod-eq_of_lt, mod-add-mod, mod-eq-sub-mod}
use native.Mathlib.Decide.{dec_lt}
use async_sandbox.Prelude.{
  ℕ, zero, suc, ◌+◌, ◌-◌, ◌%◌, ◌≤◌, ◌<◌, ◌≡◌, ◌≢◌, refl, sym, ap, ◌∙◌, ◌⊎◌, inl, inr, List, arith,
  length, get_elem?, leb, if◌then◌else◌,
}
use async_sandbox.AsyncGrpc.RoundRobin.{
  size_t_mod, ChannelProvider, Executors, channel_index, executor_index, select_next_channel,
  select_next_executor, channels_after, executors_after,
}

-- The step at which counter `c` comes to the index `i` of `n`.
abbrev pub turn : ℕ → ℕ → ℕ → ℕ
turn c n i = if leb (c % n) i then i - c % n else i + n - c % n

wrapped :
    (r k n : ℕ) → r < n → k < n → ((r + k) % n ≡ r + k) ⊎ ((n ≤ r + k) × ((r + k) % n ≡ r + k - n))
wrapped r k n h l = elim (dec_lt (r + k) n) [
  | yes s ↦ inl (mod-eq_of_lt s)
  | no s ↦ inr (omega arith, mod-eq-sub-mod {n = r + k} (omega arith) ∙ mod-eq_of_lt (omega arith))
]

-- Of the counters from `c` on, exactly one of the next `n` is `i` modulo `n`.
turn-mod : (c n i : ℕ) → i < n → (turn c n i < n) × ((c + turn c n i) % n ≡ i)
turn-mod c n i h =
    ground (arith, mod-lt c {m = n}, mod-add-mod c n (turn c n i), wrapped (c % n) (turn c n i) n)

turn_unique : (c n i k : ℕ) → k < n → i < n → (c + k) % n ≡ i → k ≡ turn c n i
turn_unique c n i k l h e = ground (arith, mod-lt c {m = n}, mod-add-mod c n k, wrapped (c % n) k n)

turns_apart : (c n j k : ℕ) → j < k → k < n → (c + j) % n ≢ (c + k) % n
turns_apart c n j k l h e =
    let below = mod-lt (c + k) {m = n} (omega arith) in
    let j_turn = turn_unique c n ((c + k) % n) j (omega arith) below e in
    let k_turn = turn_unique c n ((c + k) % n) k h below refl in
    absurd (omega (arith, j_turn, k_turn))

module _ {C : Type 0} where
  channels_counter :
      (k n : ℕ) (cs : List C)
      → n + k < size_t_mod
      → channels_after k (record { channels = cs; next_channel = n })
        ≡ record { channels = cs; next_channel = n + k }
  unfolding channels_after
  channels_counter zero n cs h = ap (λ m. record { channels = cs; next_channel = m }) (omega arith)
  channels_counter (suc k) n cs h =
      ground (arith, channels_counter k (n + 1) cs, mod-eq_of_lt {n = n + 1} {m = size_t_mod})

  executors_counter :
      (k n : ℕ) (es : List C)
      → n + k < size_t_mod
      → executors_after k (record { executors = es; next_executor = n })
        ≡ record { executors = es; next_executor = n + k }
  unfolding executors_after
  executors_counter zero n es h =
      ap (λ m. record { executors = es; next_executor = m }) (omega arith)
  executors_counter (suc k) n es h =
      ground (arith, executors_counter k (n + 1) es, mod-eq_of_lt {n = n + 1} {m = size_t_mod})

  channels_kept : (k : ℕ) (p : ChannelProvider C) → (channels_after k p).channels ≡ p.channels
  unfolding channels_after
  channels_kept zero p = refl
  channels_kept (suc k) p = channels_kept k _

  executors_kept : (k : ℕ) (p : Executors C) → (executors_after k p).executors ≡ p.executors
  unfolding executors_after
  executors_kept zero p = refl
  executors_kept (suc k) p = executors_kept k _

  selected_channel :
      (p : ChannelProvider C) (k : ℕ)
      → (select_next_channel (channels_after k p)).0
        ≡ get_elem? p.channels (channel_index (channels_after k p))
  unfolding select_next_channel
  selected_channel p k =
      ap (λ (l : List C). get_elem? l (channel_index (channels_after k p))) (channels_kept k p)

  selected_executor :
      (p : Executors C) (k : ℕ)
      → (select_next_executor (executors_after k p)).0
        ≡ get_elem? p.executors (executor_index (executors_after k p))
  unfolding select_next_executor
  selected_executor p k =
      ap (λ (l : List C). get_elem? l (executor_index (executors_after k p))) (executors_kept k p)

  channel_turn :
      (p : ChannelProvider C) (j : ℕ)
      → p.next_channel + j + 1 < size_t_mod
      → channel_index (channels_after j p) ≡ (p.next_channel + 1 + j) % length p.channels
  unfolding channel_index
  channel_turn p j l =
      rw (channels_counter j p.next_channel p.channels (omega arith)) (
        ap (λ m. m % length p.channels) (mod-eq_of_lt {n = p.next_channel + j + 1} l ∙ omega arith))

  executor_turn :
      (p : Executors C) (j : ℕ)
      → p.next_executor + j < size_t_mod
      → executor_index (executors_after j p) ≡ (p.next_executor + j) % length p.executors
  unfolding executor_index
  executor_turn p j l = rw (executors_counter j p.next_executor p.executors l)

  -- As long as the counter does not wrap, of `size` selections in a row one takes the channel at
  -- index `i`, whatever the index.
  select_next_channel_fair :
      (p : ChannelProvider C) (i : ℕ)
      → i < length p.channels
      → p.next_channel + length p.channels < size_t_mod
      → (k : ℕ) × (k < length p.channels)
        × ((select_next_channel (channels_after k p)).0 ≡ get_elem? p.channels i)
  select_next_channel_fair p i h l =
      let (lt, e) = turn-mod (p.next_channel + 1) (length p.channels) i h in
      (
        turn (p.next_channel + 1) (length p.channels) i,
        lt,
        selected_channel p _ ∙ ap (get_elem? p.channels) (channel_turn p _ (omega arith) ∙ e),
      )

  -- As long as the counter does not wrap, two of `size` selections in a row take different
  -- indices.
  select_next_channel_distinct :
      (p : ChannelProvider C) (j k : ℕ)
      → j < k
      → k < length p.channels
      → p.next_channel + length p.channels < size_t_mod
      → channel_index (channels_after j p) ≢ channel_index (channels_after k p)
  select_next_channel_distinct p j k lj lk l e =
      turns_apart (p.next_channel + 1) (length p.channels) j k lj lk
        (sym (channel_turn p j (omega arith)) ∙ e ∙ channel_turn p k (omega arith))

  -- As long as the counter does not wrap, of as many selections in a row as the server has
  -- executors one takes the executor at index `i`, whatever the index.
  select_next_executor_fair :
      (p : Executors C) (i : ℕ)
      → i < length p.executors
      → p.next_executor + length p.executors ≤ size_t_mod
      → (k : ℕ) × (k < length p.executors)
        × ((select_next_executor (executors_after k p)).0 ≡ get_elem? p.executors i)
  select_next_executor_fair p i h l =
      let (lt, e) = turn-mod p.next_executor (length p.executors) i h in
      (
        turn p.next_executor (length p.executors) i,
        lt,
        selected_executor p _ ∙ ap (get_elem? p.executors) (executor_turn p _ (omega arith) ∙ e),
      )

  -- As long as the counter does not wrap, two of as many selections in a row as the server has
  -- executors take different indices.
  select_next_executor_distinct :
      (p : Executors C) (j k : ℕ)
      → j < k
      → k < length p.executors
      → p.next_executor + length p.executors ≤ size_t_mod
      → executor_index (executors_after j p) ≢ executor_index (executors_after k p)
  select_next_executor_distinct p j k lj lk l e =
      turns_apart p.next_executor (length p.executors) j k lj lk
        (sym (executor_turn p j (omega arith)) ∙ e ∙ executor_turn p k (omega arith))
