-- ===== src/Game/CharacterServiceGrpc/Access.antt =====
-- `Read`, `Write` and `Del` of game/character_service_grpc.cpp when the first call gets through, and
-- `Read` when it fails.
use Prim.Native.String.{String}
use async_sandbox.Prelude.{
  ℕ, ℤ, pos, ◌≡◌, refl, Bool, true, false, Option, none, some, [], if◌then◌else◌, arith, inl, inr,
  Option-cases,
}
use async_sandbox.Utils.Expected.{Expected, of_value, unexpected, value_or}
use async_sandbox.AsyncGrpc.Status.{Status, is_ok, ok_status, not_found}
use async_sandbox.AsyncGrpc.Unary.{Reply, finish, finish_with_error, delivered, failed, Call}
use async_sandbox.AsyncGrpc.Retry.{
  Weather, Retrying, co_return, retry_round, auto_retry_unary, default_retry_policy,
  auto_retry_default, start, is_unavailable,
}
use async_sandbox.Server.VariableService.{read_impl, write_impl, del_impl}
use async_sandbox.Server.VariableService.Map.{Storage, find, insert_or_assign, erase}
use async_sandbox.Game.CharacterServiceGrpc.{
  ◌>>=◌, access, cancelled_status, read, write, del, read_result, is_not_found,
}

-- The first call of each access reaches the server, and its reply comes back.
abbrev pub IsClear : Weather → Type 0
IsClear w = w.delivery 0 ≡ delivered

module _ {A : Type 0} (handler : Storage → Storage × Reply A) (default : A) (w : Weather)
    (s s' : Storage) where
  first_round :
      (c : Call Storage A) (b : Bool) (r : Retrying ℕ Storage A)
      → retry_round default_retry_policy handler w (start c) ≡ co_return b r
      → auto_retry_default handler w c ≡ some (b, r.call)
  unfolding auto_retry_default
  first_round c b r e = rw (e, auto_retry_unary)

  initial : Call Storage A
  initial = record { server = s; status = cancelled_status; response = default }

  ended_after_one : Call Storage A → Retrying ℕ Storage A
  ended_after_one c = record { call = c; retry_policy = 0; attempts = 1; waited = [] }

  round_finish :
      (a : A)
      → IsClear w
      → handler s ≡ (s', finish a ok_status)
      → retry_round default_retry_policy handler w (start initial)
        ≡ co_return true
            (ended_after_one (record { server = s'; status = ok_status; response = a }))
  unfolding retry_round initial ended_after_one
  round_finish a h e = rw (h, e)

  round_not_found :
      (m : String)
      → IsClear w
      → handler s ≡ (s', finish_with_error (record { error_code = not_found; error_message = m }))
      → retry_round default_retry_policy handler w (start initial)
        ≡ co_return true (
            ended_after_one (record {
              server = s';
              status = record { error_code = not_found; error_message = m };
              response = default;
            }))
  unfolding retry_round initial ended_after_one default_retry_policy
  round_not_found m h e = ground arith

  round_failed :
      (st : Status)
      → w.delivery 0 ≡ failed st
      → is_ok st ≡ false
      → is_unavailable st.error_code ≡ false
      → retry_round default_retry_policy handler w (start initial)
        ≡ co_return true (ended_after_one (record initial { status = st }))
  unfolding retry_round initial ended_after_one default_retry_policy
  round_failed st h n u = ground arith

  pub access_finish :
      (a : A)
      → IsClear w
      → handler s ≡ (s', finish a ok_status)
      → access handler default w s ≡ some ((true, ok_status, a), s')
  unfolding access initial ended_after_one
  access_finish a h e = rw (access, first_round initial true _ (round_finish a h e))

  pub access_not_found :
      (m : String)
      → IsClear w
      → handler s ≡ (s', finish_with_error (record { error_code = not_found; error_message = m }))
      → access handler default w s
        ≡ some ((true, record { error_code = not_found; error_message = m }, default), s')
  unfolding access initial ended_after_one
  access_not_found m h e = rw (access, first_round initial true _ (round_not_found m h e))

  pub access_failed :
      (st : Status)
      → w.delivery 0 ≡ failed st
      → is_ok st ≡ false
      → is_unavailable st.error_code ≡ false
      → access handler default w s ≡ some ((true, st, default), s)
  unfolding access initial ended_after_one
  access_failed st h n u = rw (access, first_round initial true _ (round_failed st h n u))

abbrev not_found_message : String
not_found_message = "Request key was not found in storage"

read_impl_found :
    (s : Storage) (name : String) (v : ℤ)
    → find s name ≡ some v
    → read_impl s name ≡ (s, finish v ok_status)
unfolding read_impl
read_impl_found s name v e = rw (e, read_impl)

read_impl_missing :
    (s : Storage) (name : String)
    → find s name ≡ none
    → read_impl s name ≡ (
      s,
      finish_with_error (record { error_code = not_found; error_message = not_found_message }),
    )
unfolding read_impl
read_impl_missing s name e = rw (e, read_impl)

pub read_clear :
    (w : Weather) (name : String) (s : Storage)
    → IsClear w
    → read w name s ≡ some (of_value (find s name), s)
unfolding read
read_clear w name s h = elim (Option-cases (find s name)) [
  | inl e ↦ rw (
    e,
    ◌>>=◌,
    access_not_found (λ s'. read_impl s' name) (pos 0) w s s not_found_message h
        (read_impl_missing s name e),
  )
  | inr (v, e) ↦ rw (
    e,
    ◌>>=◌,
    access_finish (λ s'. read_impl s' name) (pos 0) w s s v h (read_impl_found s name v e),
  )
]

-- A read that fails, and is not retried, gives no value.
pub read_failed :
    (w : Weather) (name : String) (s : Storage) (st : Status)
    → w.delivery 0 ≡ failed st
    → is_ok st ≡ false
    → is_unavailable st.error_code ≡ false
    → (e : Expected (Option ℤ) Status) × (read w name s ≡ some (e, s)) × (value_or e none ≡ none)
unfolding read
read_failed w name s st h n u = (
  read_result true st (pos 0),
  rw (◌>>=◌, access_failed (λ s'. read_impl s' name) (pos 0) w s s st h n u),
  rw n (no_value (is_not_found st.error_code)),
)
  where
    no_value :
        (b : Bool)
        → value_or
            (if◌then◌else◌ {A = Expected (Option ℤ) Status} b (of_value none) (unexpected st))
            none
          ≡ none
    no_value true = refl
    no_value false = refl

pub write_clear :
    (w : Weather) (name : String) (v : ℤ) (s : Storage)
    → IsClear w
    → write w name v s ≡ some (of_value tt, (insert_or_assign s name v).0)
unfolding write write_impl
write_clear w name v s h = rw (
  ◌>>=◌,
  access_finish (λ s'. write_impl s' name v) false w s _ (insert_or_assign s name v).1 h refl,
)

pub del_clear :
    (w : Weather) (name : String) (s : Storage)
    → IsClear w
    → del w name s ≡ some (of_value tt, (erase s name).0)
unfolding del del_impl
del_clear w name s h =
    rw (◌>>=◌, access_finish (λ s'. del_impl s' name) false w s _ (erase s name).1 h refl)
