-- ===== src/AsyncGrpc/Listening/Tally.antt =====
-- Counting a round robin (async_grpc/async_grpc/server.cpp, `SelectNextExecutor`).
use native.Mathlib.Nat.{mod-eq_of_lt, mul-add-mod_self_left}
use native.Mathlib.Decide.{dec_lt}
use async_sandbox.Prelude.{
  ℕ, zero, suc, ◌+◌, ◌*◌, ◌%◌, ◌≤◌, ◌<◌, ◌≡◌, ap, ◌∙◌, arith, ltb, if◌then◌else◌, ◌==◌,
}
use async_sandbox.AsyncLib.Machine.{ExecutorId}

abbrev pub hit : ExecutorId → ExecutorId → ℕ
hit i e = if e == i then 1 else 0

-- How many of the first `c` selections of `n` executors are the executor `i`.
abbrev pub tally : ℕ → ExecutorId → ℕ → ℕ
tally n i zero = 0
tally n i (suc c) = tally n i c + hit i (c % n)

-- Rounds and a rest.
record Rounds (n c : ℕ) : Type 0 where
  rounds : ℕ
  rest : ℕ
  whole : c ≡ n * rounds + rest
  below : rest < n
  counts : (i : ℕ) → i < n → tally n i c ≡ rounds + (if ltb i rest then 1 else 0)

next_round : (n c : ℕ) → Rounds n c → Rounds n (suc c)
next_round n c r = elim (dec_lt (suc r.rest) n) [
  | yes s ↦ record {
    rounds = r.rounds;
    rest = suc r.rest;
    whole = omega (arith, r.whole);
    below = s;
    counts = λ i h. ground (arith, r.counts i h, at_rest);
  }
  | no s ↦ record {
    rounds = suc r.rounds;
    rest = 0;
    whole = ground (arith, r.whole, r.below);
    below = ground (arith, r.below);
    counts = λ i h. ground (arith, r.counts i h, at_rest, r.below);
  }
]
  where
    at_rest : c % n ≡ r.rest
    at_rest =
        ap (λ (k : ℕ). k % n) r.whole
        ∙ mul-add-mod_self_left n r.rounds r.rest
        ∙ mod-eq_of_lt r.below

tally-Rounds : (n c : ℕ) → 0 < n → Rounds n c
tally-Rounds n zero h = record {
  rounds = 0;
  rest = 0;
  whole = omega arith;
  below = h;
  counts = λ i l. ground arith;
}
tally-Rounds n (suc c) h = next_round n c (tally-Rounds n c h)

pub tally_even : (n i j c : ℕ) → i < n → j < n → tally n i c ≤ tally n j c + 1
tally_even n i j c h k =
    let r = tally-Rounds n c (omega arith) in ground (arith, r.counts i h, r.counts j k)
