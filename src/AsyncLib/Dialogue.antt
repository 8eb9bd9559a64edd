-- ===== src/AsyncLib/Dialogue.antt =====
-- What tasks mean when a `co_await` of a task is read as a function call: a dialogue of requests to
-- the executor and replies from it, which ends in a value.
use async_sandbox.AsyncLib.Machine.{Code, co_return, call, await, suspend}

pub data Dialogue (V : Type 0) : Type 0 where
  answer : V → Dialogue V
  ask : V → (V → Dialogue V) → Dialogue V

-- Tasks that await what they call: `bind c k` calls the coroutine `c` and awaits its task.
pub data Seq (V : Type 0) : Type 0 where
  ret : V → Seq V
  request : V → (V → Seq V) → Seq V
  bind : Seq V → (V → Seq V) → Seq V

module _ {V : Type 0} where
  unfoldable pub and_then : Dialogue V → (V → Dialogue V) → Dialogue V
  and_then (answer v) k = k v
  and_then (ask q d) k = ask q (λ r. and_then (d r) k)

  unfoldable pub denote : Seq V → Dialogue V
  denote (ret v) = answer v
  denote (request q k) = ask q (λ r. denote (k r))
  denote (bind c k) = and_then (denote c) (λ v. denote (k v))

  unfoldable pub compile : Seq V → Code V
  compile (ret v) = co_return v
  compile (request q k) = suspend q (λ r. compile (k r))
  compile (bind c k) = call (compile c) (λ t. await t (λ v. compile (k v)))
