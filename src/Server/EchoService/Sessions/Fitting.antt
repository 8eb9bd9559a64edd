-- ===== src/Server/EchoService/Sessions/Fitting.antt =====
-- Where the handler and the subroutine of a session stand, against the handler of `EchoService`, which
-- runs through the requests without the subroutine's steps.
use mathlib.Core.Option.{some-injective}
use async_sandbox.Prelude.{
  ◌≡◌, refl, sym, subst, ◌∙◌, Bool, true, false, Option, none, some, List, [], ◌∷◌, ◌++◌, inl, inr,
  Bool-cases, Option-cases, if◌then◌else◌,
}
use async_sandbox.AsyncGrpc.Status.{is_ok}
use async_sandbox.Server.EchoService.{
  Command, Echo, initial, process, process_all, end_subroutine, clean_up,
}
use async_sandbox.Server.EchoService.Sessions.{
  HandlerAt, reading, awaiting_stop, awaiting_end, finishing, ended, RoutineAt, absent, at_alarm,
  at_write, left, Session, cancel, await_routine, leave_loop, loop, routine_left, on_alarm,
  on_write, on_finish,
}

abbrev pub is_present : RoutineAt → Bool
is_present absent = false
is_present _ = true

abbrev pub is_waiting : RoutineAt → Bool
is_waiting (at_alarm c) = true
is_waiting at_write = true
is_waiting _ = false

-- The handler, with its state and its subroutine, has read the commands `cs`.
abbrev pub FitsAt : List Command → Echo → RoutineAt → HandlerAt → Type 0
FitsAt cs e r reading =
    (process_all initial cs ≡ some e) × (is_ok e.status ≡ true) × (e.subroutine ≡ is_present r)
FitsAt cs e r awaiting_stop =
    (process_all initial cs ≡ some (end_subroutine e))
    × (is_ok e.status ≡ true)
    × (e.subroutine ≡ true)
    × (is_waiting r ≡ true)
FitsAt cs e r awaiting_end =
    (process_all initial cs ≡ some e) × (e.subroutine ≡ true) × (is_waiting r ≡ true)
FitsAt cs e r finishing =
    (f : Echo) × (process_all initial cs ≡ some f) × (clean_up f ≡ e) × (r ≡ absent)
FitsAt cs e r ended =
    (f : Echo) × (process_all initial cs ≡ some f) × (clean_up f ≡ e) × (r ≡ absent)

abbrev pub Fits : List Command → Session → Type 0
Fits cs s = FitsAt cs s.echo s.routine s.handler

abbrev pub OrNone : List Command → Option Session → Type 0
OrNone cs none = Unit
OrNone cs (some s) = Fits cs s

option_same : (o : Option Echo) → (elim o [ none ↦ none | some x ↦ some x ]) ≡ o
option_same none = refl
option_same (some x) = refl

process_all-one :
    (e : Echo) (c : Command) → is_ok e.status ≡ true → process_all e (c ∷ []) ≡ process e c
unfolding process_all
process_all-one e c k = rw k (option_same (process e c))

-- One request more.
pub process_all-append :
    (e e' : Echo) (cs : List Command) (c : Command)
    → process_all e cs ≡ some e'
    → is_ok e'.status ≡ true
    → process_all e (cs ++ c ∷ []) ≡ process e' c
unfolding process_all
process_all-append e e' [] c h k =
    let same : e ≡ e' = some-injective _ _ h in
    subst (λ (x : Echo). process_all x (c ∷ []) ≡ process e' c) (sym same) (process_all-one e' c k)
process_all-append e e' (d ∷ cs) c h k = elim (Bool-cases (is_ok e.status)) [
  | inl y ↦ elim (Option-cases (process e d)) [
    | inl q ↦ cc (rw (y, q, process_all) at h)
    | inr (x, q) ↦ rw (y, q) (process_all-append x e' cs c (rw (y, q, process_all) at h) k)
  ]
  | inr n ↦
      let same : e ≡ e' = some-injective _ _ (rw (n, process_all) at h) in
      let bad : is_ok e'.status ≡ false = rw (← same) n in cc
]

absent_of : (r : RoutineAt) → is_present r ≡ false → r ≡ absent
absent_of absent e = refl
absent_of (at_alarm c) e = cc
absent_of at_write e = cc
absent_of left e = cc

await_end :
    (r : RoutineAt) (cs : List Command) (s : Session)
    → process_all initial cs ≡ some s.echo
    → s.echo.subroutine ≡ true
    → is_present r ≡ true
    → Fits cs (await_routine (cancel r) awaiting_end s)
await_end absent cs s h y p = cc
await_end (at_alarm c) cs s h y p = (h, y, refl)
await_end at_write cs s h y p = (h, y, refl)
await_end left cs s h y p = (s.echo, h, rw y refl, refl)

pub await_stop :
    (r : RoutineAt) (cs : List Command) (s : Session)
    → process_all initial cs ≡ some (end_subroutine s.echo)
    → is_ok s.echo.status ≡ true
    → s.echo.subroutine ≡ true
    → is_present r ≡ true
    → Fits cs (await_routine (cancel r) awaiting_stop s)
await_stop absent cs s h k y p = cc
await_stop (at_alarm c) cs s h k y p = (h, k, y, refl)
await_stop at_write cs s h k y p = (h, k, y, refl)
await_stop left cs s h k y p = rw k (h, k, refl)

pub leave_loop-Fits :
    (cs : List Command) (s : Session)
    → process_all initial cs ≡ some s.echo
    → s.echo.subroutine ≡ is_present s.routine
    → Fits cs (leave_loop s)
unfolding leave_loop
leave_loop-Fits cs s h m = elim (Bool-cases s.echo.subroutine) [
  | inl y ↦
      subst
        (λ (b : Bool). Fits cs (
          if b
          then await_routine (cancel s.routine) awaiting_end s
          else record s { handler = finishing }))
        (sym y) (await_end s.routine cs s h y (sym m ∙ y))
  | inr n ↦ rw n (s.echo, h, rw n refl, absent_of s.routine (sym m ∙ n))
]

pub loop-Fits :
    (cs : List Command) (s : Session)
    → process_all initial cs ≡ some s.echo
    → s.echo.subroutine ≡ is_present s.routine
    → Fits cs (loop s)
unfolding loop
loop-Fits cs s h m = elim (Bool-cases (is_ok s.echo.status)) [
  | inl y ↦ rw y (h, y, m)
  | inr n ↦ rw n (leave_loop-Fits cs s h m)
]

-- The step of a subroutine that does not leave its loop.
goes_on :
    (cs : List Command) (e : Echo) (r r' : RoutineAt) (h : HandlerAt)
    → is_present r ≡ true
    → is_waiting r' ≡ true
    → is_present r' ≡ true
    → FitsAt cs e r h
    → FitsAt cs e r' h
goes_on cs e r r' reading p w q (a, b, c) = (a, b, c ∙ p ∙ sym q)
goes_on cs e r r' awaiting_stop p w q (a, b, c, d) = (a, b, c, w)
goes_on cs e r r' awaiting_end p w q (a, b, c) = (a, b, w)
goes_on cs e r r' finishing p w q (f, a, b, c) = cc (rw c at p)
goes_on cs e r r' ended p w q (f, a, b, c) = cc (rw c at p)

routine_left-Fits :
    (cs : List Command) (s : Session) (r : RoutineAt) (h : HandlerAt)
    → s.handler ≡ h
    → is_present r ≡ true
    → FitsAt cs s.echo r h
    → Fits cs (routine_left h s)
routine_left-Fits cs s r reading e p (a, b, c) = rw e (a, b, c ∙ p)
routine_left-Fits cs s r awaiting_stop e p (a, b, c, d) = rw b (a, b, refl)
routine_left-Fits cs s r awaiting_end e p (a, b, c) = (s.echo, a, rw b refl, refl)
routine_left-Fits cs s r finishing e p (f, a, b, c) = cc (rw c at p)
routine_left-Fits cs s r ended e p (f, a, b, c) = cc (rw c at p)

pub on_alarm-Fits :
    (cs : List Command) (s : Session) (rang : Bool) (r : RoutineAt)
    → FitsAt cs s.echo r s.handler
    → OrNone cs (on_alarm rang r s)
unfolding on_alarm
on_alarm-Fits cs s true absent f = tt
on_alarm-Fits cs s false absent f = tt
on_alarm-Fits cs s true (at_alarm c) f =
    goes_on cs s.echo (at_alarm c) at_write s.handler refl refl refl f
on_alarm-Fits cs s false (at_alarm true) f =
    routine_left-Fits cs s (at_alarm true) s.handler refl refl f
on_alarm-Fits cs s false (at_alarm false) f = tt
on_alarm-Fits cs s true at_write f = tt
on_alarm-Fits cs s false at_write f = tt
on_alarm-Fits cs s true left f = tt
on_alarm-Fits cs s false left f = tt

pub on_write-Fits :
    (cs : List Command) (s : Session) (ok : Bool) (r : RoutineAt)
    → FitsAt cs s.echo r s.handler
    → OrNone cs (on_write ok r s)
unfolding on_write
on_write-Fits cs s true absent f = tt
on_write-Fits cs s true (at_alarm c) f = tt
on_write-Fits cs s true at_write f =
    goes_on cs s.echo at_write (at_alarm false) s.handler refl refl refl f
on_write-Fits cs s true left f = tt
on_write-Fits cs s false absent f = tt
on_write-Fits cs s false (at_alarm c) f = tt
on_write-Fits cs s false at_write f = routine_left-Fits cs s at_write s.handler refl refl f
on_write-Fits cs s false left f = tt

pub on_finish-Fits :
    (cs : List Command) (s : Session) (h : HandlerAt)
    → FitsAt cs s.echo s.routine h
    → OrNone cs (on_finish h s)
unfolding on_finish
on_finish-Fits cs s reading f = tt
on_finish-Fits cs s awaiting_stop f = tt
on_finish-Fits cs s awaiting_end f = tt
on_finish-Fits cs s finishing f = f
on_finish-Fits cs s ended f = tt
