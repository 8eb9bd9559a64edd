-- ===== src/AsyncGrpc/Listening/Selection.antt =====
-- `SelectNextExecutor` of async_grpc/async_grpc/server.cpp on a server that listens.
use native.Mathlib.Nat.{mod-lt, mod-eq_of_lt}
use async_sandbox.Prelude.{
  ℕ, zero, suc, ◌+◌, ◌%◌, ◌<◌, ◌≡◌, refl, ap, ◌∙◌, some, ◌>>=◌, arith, length, get_elem?,
}
use async_sandbox.AsyncLib.Machine.{ExecutorId}
use async_sandbox.AsyncGrpc.RoundRobin.{size_t_mod, Executors, select_next_executor}
use async_sandbox.AsyncGrpc.Listening.{Server, executors_from, select}

pub length-executors_from : (n e : ℕ) → length (executors_from e n) ≡ n
length-executors_from zero e = refl
length-executors_from (suc n) e = omega (arith, length-executors_from n (suc e))

get-executors_from : (n e i : ℕ) → i < n → get_elem? (executors_from e n) i ≡ some (e + i)
get-executors_from zero e i h = absurd (omega arith)
get-executors_from (suc n) e zero h = ap some (omega arith)
get-executors_from (suc n) e (suc i) h =
    get-executors_from n (suc e) i (omega arith) ∙ ap some (omega arith)

executor_at : (n i : ℕ) → i < n → get_elem? (executors_from 0 n) i ≡ some i
executor_at n i h = get-executors_from n 0 i h ∙ ap some (omega arith)

-- The executors of a server with `n` of them, after `c` selections.
abbrev pub counter : ℕ → ℕ → Executors ExecutorId
counter n c = record { executors = executors_from 0 n; next_executor = c }

select_counter :
    (n c : ℕ)
    → 0 < n
    → c + 1 < size_t_mod
    → select_next_executor (counter n c) ≡ (some (c % n), counter n (c + 1))
unfolding select_next_executor
select_counter n c h l =
    rw
      (
        length-executors_from n 0,
        executor_at n (c % n) (mod-lt c h),
        mod-eq_of_lt {n = c + 1} {m = size_t_mod} l,
      )
      refl

pub select_lem :
    {R : Type 0} (s : Server R) (n c : ℕ)
    → s.executors ≡ counter n c
    → 0 < n
    → c + 1 < size_t_mod
    → select s ≡ some (c % n, record s { executors = counter n (c + 1) })
unfolding select
select_lem s n c e h l = rw (◌>>=◌, e, select_counter n c h l) refl

-- A server with executors always selects one of them.
pub select-some :
    {R : Type 0} (s : Server R) (n : ℕ)
    → s.executors.executors ≡ executors_from 0 n
    → 0 < n
    → (e : ExecutorId) × (next : Executors ExecutorId) × (select s
        ≡ some (e, record s { executors = next }))
      × (next.executors ≡ executors_from 0 n)
unfolding select select_next_executor
select-some s n h l = (
  s.executors.next_executor % n,
  (select_next_executor s.executors).1,
  rw
      (
        h,
        length-executors_from n 0,
        executor_at n (s.executors.next_executor % n) (mod-lt s.executors.next_executor l),
      )
      refl,
  h,
)
