-- ===== src/Game/CharacterServiceGrpc.antt =====
-- game/character_service_grpc.hpp and .cpp: the service over the variables of a server, with a call
-- of `AutoRetryUnary` for each access. What becomes of the calls is an argument of each operation.
pub mod Access
pub mod Clear
pub mod Agreement
use Prim.Native.String.{String}
use async_sandbox.Prelude.{ℤ, pos, Bool, true, false, Option, none, some, add64, if◌then◌else◌}
use async_sandbox.Utils.Expected.{Expected, of_value, unexpected, value_or, has_value, value}
use async_sandbox.AsyncGrpc.Status.{StatusCode, Status, is_ok, cancelled, not_found}
use async_sandbox.AsyncGrpc.Unary.{Reply, Call}
use async_sandbox.AsyncGrpc.Retry.{Weather, auto_retry_default}
use async_sandbox.Server.VariableService.{read_impl, write_impl, del_impl}
use async_sandbox.Server.VariableService.Map.{Storage}
use async_sandbox.Game.CharacterService.{Player, new_player}

-- A task's effect on the server's storage; `none` is a fault.
abbrev pub M : Type 0 → Type 0
M A = Storage → Option (A × Storage)

abbrev pub pure : {A : Type 0} → A → M A
pure a s = some (a, s)

infixl 5 ◌>>=◌
abbrev pub ◌>>=◌ : {A B : Type 0} → M A → (A → M B) → M B
◌>>=◌ m f s = elim (m s) [ none ↦ none | some (a, s') ↦ f a s' ]

abbrev pub lift : {A : Type 0} → Option A → M A
lift none s = none
lift (some a) s = some (a, s)

abbrev pub value_or' : Option ℤ → ℤ → ℤ
value_or' none d = d
value_or' (some v) d = v

abbrev pub cancelled_status : Status
cancelled_status = record { error_code = cancelled; error_message = "" }

-- `status` and `response` as the caller declares them, and one call with retries
unfoldable pub access :
    {A : Type 0} → (Storage → Storage × Reply A) → A → Weather → M (Bool × Status × A)
access handler default weather s =
    elim (auto_retry_default handler weather
      (record { server = s; status = cancelled_status; response = default })) [
        | none ↦ none
        | some (b, c) ↦ some ((b, c.status, c.response), c.server)
      ]

abbrev pub is_not_found : StatusCode → Bool
is_not_found not_found = true
is_not_found _ = false

abbrev pub read_result : Bool → Status → ℤ → Expected (Option ℤ) Status
read_result called status response =
    if called
    then if is_ok status
      then of_value (some response)
      else if is_not_found status.error_code
      then of_value none
      else unexpected status
    else unexpected status

abbrev pub done_result : Bool → Status → Expected (Unit {0}) Status
done_result called status =
    if called then if is_ok status then of_value tt else unexpected status else unexpected status

unfoldable pub read : Weather → String → M (Expected (Option ℤ) Status)
read weather name = do
  (called, status, response) ← access (λ s. read_impl s name) (pos 0) weather
  pure (read_result called status response)

unfoldable pub write : Weather → String → ℤ → M (Expected (Unit {0}) Status)
write weather name v = do
  (called, status, response) ← access (λ s. write_impl s name v) false weather
  pure (done_result called status)

unfoldable pub del : Weather → String → M (Expected (Unit {0}) Status)
del weather name = do
  (called, status, response) ← access (λ s. del_impl s name) false weather
  pure (done_result called status)

-- `if (auto res = co_await Read(…)) { field = res->value_or(d); }`
abbrev pub field_or : Expected (Option ℤ) Status → ℤ → ℤ
field_or (of_value o) d = value_or' o d
field_or (unexpected e) d = d

unfoldable pub get_player : Weather → Weather → M Player
get_player w₁ w₂ = do
  level ← read w₁ "level"
  xp ← read w₂ "xp"
  pure (record { level = field_or level (pos 1); xp = field_or xp (pos 0) })

unfoldable pub give_xp : Weather → Weather → ℤ → M ℤ
give_xp w₁ w₂ ammount = do
  res ← read w₁ "xp"
  let cur_xp = value_or' (value_or res none) (pos 0)
  xp ← lift (add64 cur_xp ammount)
  written ← write w₂ "xp" xp
  pure cur_xp

unfoldable pub level_up : Weather → Weather → Weather → M ℤ
level_up w₁ w₂ w₃ = do
  res ← read w₁ "level"
  let cur_level = value_or' (value_or res none) (pos 1)
  level ← lift (add64 cur_level (pos 1))
  written ← write w₂ "level" level
  cleared ← write w₃ "xp" (pos 0)
  pure cur_level

unfoldable pub reset : Weather → Weather → M (Unit {0})
reset w₁ w₂ = do first ← del w₁ "level"; second ← del w₂ "xp"; pure tt
