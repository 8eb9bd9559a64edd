-- ===== src/Server/EchoService/Sessions/Runs.antt =====
-- Requests and whole sessions of the bidirectional stream (async_grpc/server/echo_service_impl.cpp).
use mathlib.Core.Option.{some-injective}
use mathlib.Core.List.{append-nil, append_assoc}
use async_sandbox.Prelude.{
  ◌≡◌, refl, sym, ap, subst, ◌∙◌, Bool, true, false, Option, none, some, List, [], ◌∷◌, ◌++◌, arith,
  inl, inr, Bool-cases, Option-cases, ◌>>=◌, if◌then◌else◌,
}
use async_sandbox.AsyncGrpc.Status.{ok_status}
use async_sandbox.Server.EchoService.{
  Command, message, start, stop, unset, Echo, initial, process, process_all, end_subroutine,
  bidirectional_echo,
}
use async_sandbox.Server.EchoService.Sessions.{
  HandlerAt, reading, awaiting_stop, awaiting_end, finishing, ended, RoutineAt, absent, at_alarm,
  at_write, left, Session, new_session, loop, with_routine, process_request, Event, read_request,
  read_failed, alarm_done, write_done, finish_done, on_read, handle, run, commands_of,
}
use async_sandbox.Server.EchoService.Sessions.Fitting.{
  is_present, FitsAt, Fits, OrNone, process_all-append, await_stop, leave_loop-Fits, loop-Fits,
  on_alarm-Fits, on_write-Fits, on_finish-Fits,
}

process_stop : (e : Echo) → e.subroutine ≡ true → process e stop ≡ some (end_subroutine e)
unfolding process
process_stop e y = rw y refl

present_with :
    (b c : Bool) (r : RoutineAt)
    → b ≡ is_present r
    → (b ≡ true → c ≡ true)
    → c ≡ is_present (with_routine c r)
present_with b true absent m k = refl
present_with b false absent m k = refl
present_with b true (at_alarm x) m k = refl
present_with b true at_write m k = refl
present_with b true left m k = refl
present_with b false (at_alarm x) m k = k m
present_with b false at_write m k = k m
present_with b false left m k = k m

-- A request that is not a stop leaves a subroutine that runs alone.
other_request :
    (cs : List Command) (s : Session) (c : Command)
    → ((e : Echo) → process s.echo c ≡ some e → s.echo.subroutine ≡ true → e.subroutine ≡ true)
    → FitsAt cs s.echo s.routine reading
    → OrNone (cs ++ c ∷ []) (
        process s.echo c >>= λ e.
        some (loop (record s { echo = e; routine = with_routine e.subroutine s.routine })))
other_request cs s c keep (h, k, m) = elim (Option-cases (process s.echo c)) [
  | inl q ↦ rw (q, ◌>>=◌) tt
  | inr (e, q) ↦
      rw (q, ◌>>=◌)
        (loop-Fits (cs ++ c ∷ [])
          (record s { echo = e; routine = with_routine e.subroutine s.routine })
          (process_all-append initial s.echo cs c h k ∙ q)
          (present_with s.echo.subroutine e.subroutine s.routine m (keep e q)))
]

if_yes :
    (P : Option Session → Type 0) (b : Bool) (x y : Option Session)
    → b ≡ true
    → P x
    → P (if b then x else y)
if_yes P true x y e h = h
if_yes P false x y e h = cc

if_no :
    (P : Option Session → Type 0) (b : Bool) (x y : Option Session)
    → b ≡ false
    → P y
    → P (if b then x else y)
if_no P true x y e h = cc
if_no P false x y e h = h

process_request-Fits :
    (cs : List Command) (s : Session) (c : Command)
    → FitsAt cs s.echo s.routine reading
    → OrNone (cs ++ c ∷ []) (process_request s c)
unfolding process_request process
process_request-Fits cs s (message m d) f =
    other_request cs s (message m d) (λ e q y. ground arith) f
process_request-Fits cs s start f = other_request cs s start (λ e q y. ground arith) f
process_request-Fits cs s unset f = tt
process_request-Fits cs s stop (h, k, m) =
    let cs' = cs ++ stop ∷ [] in
    let after = process_all-append initial s.echo cs stop h k in
    elim (Bool-cases s.echo.subroutine) [
      | inl y ↦
          if_yes (λ (x : Option Session). OrNone cs' x) s.echo.subroutine _ _ y
            (await_stop s.routine cs' s (after ∙ process_stop s.echo y) k y (sym m ∙ y))
      | inr n ↦
          if_no (λ (x : Option Session). OrNone cs' x) s.echo.subroutine _ _ n
            (loop-Fits cs' _ after (ground (arith, m, n)))
    ]

on_read-Fits :
    (cs : List Command) (s : Session) (c : Command) (h : HandlerAt)
    → FitsAt cs s.echo s.routine h
    → OrNone (cs ++ c ∷ []) (on_read (some c) h s)
unfolding on_read
on_read-Fits cs s c reading f = process_request-Fits cs s c f
on_read-Fits cs s c awaiting_stop f = tt
on_read-Fits cs s c awaiting_end f = tt
on_read-Fits cs s c finishing f = tt
on_read-Fits cs s c ended f = tt

read_failed-Fits :
    (cs : List Command) (s : Session) (h : HandlerAt)
    → FitsAt cs s.echo s.routine h
    → OrNone cs (on_read none h s)
unfolding on_read
read_failed-Fits cs s reading (a, b, c) = leave_loop-Fits cs s a c
read_failed-Fits cs s awaiting_stop f = tt
read_failed-Fits cs s awaiting_end f = tt
read_failed-Fits cs s finishing f = tt
read_failed-Fits cs s ended f = tt

-- The requests that an event reads.
abbrev pub read_by : Event → List Command
read_by (read_request c) = c ∷ []
read_by e = []

handle-Fits :
    (cs : List Command) (s : Session) (e : Event)
    → Fits cs s
    → OrNone (cs ++ read_by e) (handle s e)
unfolding handle
handle-Fits cs s (read_request c) f = on_read-Fits cs s c s.handler f
handle-Fits cs s read_failed f = rw (append-nil cs) (read_failed-Fits cs s s.handler f)
handle-Fits cs s (alarm_done rang) f = rw (append-nil cs) (on_alarm-Fits cs s rang s.routine f)
handle-Fits cs s (write_done ok) f = rw (append-nil cs) (on_write-Fits cs s ok s.routine f)
handle-Fits cs s finish_done f = rw (append-nil cs) (on_finish-Fits cs s s.handler f)

pub read_by-commands :
    (cs : List Command) (e : Event) (es : List Event)
    → (cs ++ read_by e) ++ commands_of es ≡ cs ++ commands_of (e ∷ es)
read_by-commands cs (read_request c) es = append_assoc cs (c ∷ []) (commands_of es)
read_by-commands cs read_failed es = ap (λ (x : List Command). x ++ commands_of es) (append-nil cs)
read_by-commands cs (alarm_done rang) es =
    ap (λ (x : List Command). x ++ commands_of es) (append-nil cs)
read_by-commands cs (write_done ok) es =
    ap (λ (x : List Command). x ++ commands_of es) (append-nil cs)
read_by-commands cs finish_done es = ap (λ (x : List Command). x ++ commands_of es) (append-nil cs)

from_OrNone :
    (cs : List Command) (o : Option Session) (s : Session) → OrNone cs o → o ≡ some s → Fits cs s
from_OrNone cs none s f e = cc
from_OrNone cs (some x) s f e = subst (λ (y : Session). Fits cs y) (some-injective _ _ e) f

pub run-Fits :
    (es : List Event) (cs : List Command) (s s' : Session)
    → Fits cs s
    → run s es ≡ some s'
    → Fits (cs ++ commands_of es) s'
unfolding run
run-Fits [] cs s s' f q =
    rw (append-nil cs) (subst (λ (y : Session). Fits cs y) (some-injective _ _ q) f)
run-Fits (e ∷ es) cs s s' f q = elim (Option-cases (handle s e)) [
  | inl g ↦ cc (rw (g, ◌>>=◌) at q)
  | inr (s₁, g) ↦ rw (← read_by-commands cs e es) (
      run-Fits es (cs ++ read_by e) s₁ s' (from_OrNone _ _ s₁ (handle-Fits cs s e f) g)
        (rw (g, ◌>>=◌) at q))
]

ends_as :
    (cs : List Command) (s : Session) (h : HandlerAt)
    → h ≡ ended
    → FitsAt cs s.echo s.routine h
    → bidirectional_echo cs ≡ some (s.echo, ok_status)
unfolding bidirectional_echo
ends_as cs s reading e f = cc
ends_as cs s awaiting_stop e f = cc
ends_as cs s awaiting_end e f = cc
ends_as cs s finishing e f = cc
ends_as cs s ended e (x, a, b, c) = rw (bidirectional_echo, a, b) refl

pub new-Fits : Fits [] new_session
unfolding process_all
new-Fits = (refl, refl, refl)

-- Whatever the order of the requests and of what the subroutine's alarms and writes give: if the
-- session ends, the handler has ended in the state, with what it did to its subroutine, that it comes
-- to when it runs through the same requests without the subroutine's steps.
pub run-ends :
    (es : List Event) (s : Session)
    → run new_session es ≡ some s
    → s.handler ≡ ended
    → bidirectional_echo (commands_of es) ≡ some (s.echo, ok_status)
run-ends es s q e = ends_as (commands_of es) s s.handler e (run-Fits es [] new_session s new-Fits q)

finishes_alone :
    (cs : List Command) (s : Session) (h : HandlerAt)
    → h ≡ finishing
    → FitsAt cs s.echo s.routine h
    → s.routine ≡ absent
finishes_alone cs s reading e f = cc
finishes_alone cs s awaiting_stop e f = cc
finishes_alone cs s awaiting_end e f = cc
finishes_alone cs s finishing e (x, a, b, c) = c
finishes_alone cs s ended e f = cc

-- Whatever the events, while `Finish` is under way no alarm is set and no write is under way: the
-- subroutine is gone.
pub run_finishes_alone :
    (es : List Event) (s : Session)
    → run new_session es ≡ some s
    → s.handler ≡ finishing
    → s.routine ≡ absent
run_finishes_alone es s q e =
    finishes_alone (commands_of es) s s.handler e (run-Fits es [] new_session s new-Fits q)
