-- ===== src/Server/EchoService/Writing.antt =====
-- The write subroutine of `BidirectionalStreamEchoImpl` (async_grpc/server/echo_service_impl.cpp), and how
-- the handler stops it. An alarm gives true when it rings and false when it is cancelled; the cancel of
-- an alarm that is not set, or that has rung, has no effect. Whether a write works is an argument, by its number.
use Prim.Native.String.{String}
use async_sandbox.Prelude.{
  ℕ, zero, suc, ◌≡◌, refl, ◌≢◌, Bool, true, false, List, [], ◌∷◌, ◌++◌, length, ◌&&◌, not,
  if◌then◌else◌,
}

-- Where the subroutine waits, or that it has left its loop.
pub data Place : Type 0 where
  at_alarm at_write left : Place

pub record Routine : Type 0 where
  pub place : Place
  -- whether the alarm that is set has rung, though its event is not taken off the queue yet
  pub alarm_rung : Bool
  -- whether the alarm that is set was cancelled before it rang
  pub alarm_cancelled : Bool
  pub response : String
  pub written : List String

abbrev pub start_routine : String → Routine
start_routine m = record {
  place = at_alarm;
  alarm_rung = false;
  alarm_cancelled = false;
  response = m;
  written = [];
}

-- `alarm.Cancel()`
abbrev pub cancel_at : Place → Routine → Routine
cancel_at at_alarm r = if r.alarm_rung then r else record r { alarm_cancelled = true }
cancel_at at_write r = r
cancel_at left r = r

-- The subroutine from the place where it waits to the next one.
unfoldable pub go_on_at : (ℕ → Bool) → Place → Routine → Routine
go_on_at works at_alarm r = record r { place = if r.alarm_cancelled then left else at_write }
go_on_at works at_write r =
    if works (length r.written)
    then record r {
      place = at_alarm;
      alarm_rung = false;
      alarm_cancelled = false;
      written = r.written ++ r.response ∷ [];
    }
    else record r { place = left }
go_on_at works left r = r

unfoldable pub go_on : ℕ → (ℕ → Bool) → Routine → Routine
unfolding go_on_at
go_on zero works r = r
go_on (suc n) works r = go_on n works (go_on_at works r.place r)

abbrev pub has_left : Place → Bool
has_left left = true
has_left _ = false

abbrev pub waits_for_alarm : Place → Bool
waits_for_alarm at_alarm = true
waits_for_alarm _ = false

module _ (works : ℕ → Bool) (all_work : (n : ℕ) → works n ≡ true) where
  stays_left : (n : ℕ) (r : Routine) → r.place ≡ left → has_left (go_on n works r).place ≡ true
  unfolding go_on go_on_at
  stays_left zero r e = rw e refl
  stays_left (suc n) r e = rw e (stays_left n (record r { place = left }) refl)

  goes_on :
      (n : ℕ) (p : Place) (r : Routine)
      → p ≢ left
      → r.place ≡ p
      → r.alarm_cancelled ≡ false
      → has_left (go_on n works r).place ≡ false
  unfolding go_on go_on_at
  goes_on zero at_alarm r d e c = rw e refl
  goes_on zero at_write r d e c = rw e refl
  goes_on zero left r d e c = absurd (d refl)
  goes_on (suc n) at_alarm r d e c =
      rw (e, c)
        (goes_on n at_write (record r { place = at_write; alarm_cancelled = false }) (λ p. cc) refl
          refl)
  goes_on (suc n) at_write r d e c =
      rw (e, go_on, go_on_at, all_work (length r.written))
        (goes_on n at_alarm
          (record r {
            place = at_alarm;
            alarm_rung = false;
            alarm_cancelled = false;
            written = r.written ++ r.response ∷ [];
          })
          (λ p. cc) refl refl)
  goes_on (suc n) left r d e c = absurd (d refl)

  leaves :
      (n : ℕ) (r : Routine)
      → r.alarm_cancelled ≡ true
      → r.place ≡ at_alarm
      → has_left (go_on (suc n) works r).place ≡ true
  unfolding go_on go_on_at
  leaves n r c e = rw (e, c) (stays_left n (record r { place = left; alarm_cancelled = true }) refl)

  either_alarm :
      (n : ℕ) (rung : Bool) (r r' : Routine)
      → has_left (go_on (suc n) works r).place ≡ false
      → has_left (go_on (suc n) works r').place ≡ true
      → has_left (go_on (suc n) works (if rung then r else r')).place ≡ true && not rung
  either_alarm n true r r' h k = h
  either_alarm n false r r' h k = k

  cancel_at_ends :
      (n : ℕ) (p : Place) (r : Routine)
      → r.place ≡ p
      → p ≢ left
      → r.alarm_cancelled ≡ false
      → has_left (go_on (suc n) works (cancel_at p r)).place ≡ waits_for_alarm p && not r.alarm_rung
  cancel_at_ends n at_alarm r e d c =
      either_alarm n r.alarm_rung r (record r { alarm_cancelled = true })
        (goes_on (suc n) at_alarm r d e c) (leaves n (record r { alarm_cancelled = true }) refl e)
  cancel_at_ends n at_write r e d c = goes_on (suc n) at_write r d e c
  cancel_at_ends n left r e d c = absurd (d refl)

  -- If every write works, and the subroutine has not left its loop, and its alarm is not cancelled, then
  -- cancelling the alarm makes it leave with its next step, for good, if it waits for the alarm and that
  -- has not rung; if it waits for a write, or its alarm has rung already, the cancel is lost, and no
  -- number of steps makes it leave.
  pub cancel_ends :
      (n : ℕ) (r : Routine)
      → r.place ≢ left
      → r.alarm_cancelled ≡ false
      → has_left (go_on (suc n) works (cancel_at r.place r)).place
        ≡ waits_for_alarm r.place && not r.alarm_rung
  cancel_ends n r d c = cancel_at_ends n r.place r refl d c
