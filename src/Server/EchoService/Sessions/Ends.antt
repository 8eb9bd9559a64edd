-- ===== src/Server/EchoService/Sessions/Ends.antt =====
-- The end of a session of the bidirectional stream (async_grpc/server/echo_service_impl.cpp), from
-- whatever point it stands at.
use Prim.Native.String.{String}
use async_sandbox.Prelude.{
  ◌≡◌, refl, sym, ◌∙◌, Bool, true, false, some, List, [], ◌∷◌, ◌++◌, ◌>>=◌, if◌then◌else◌,
}
use async_sandbox.AsyncGrpc.Status.{is_ok}
use async_sandbox.Server.EchoService.{Command, Echo, end_subroutine}
use async_sandbox.Server.EchoService.Sessions.{
  HandlerAt, reading, awaiting_stop, awaiting_end, finishing, ended, RoutineAt, absent, at_alarm,
  at_write, left, Session, new_session, cancel, await_routine, leave_loop, Event, read_failed,
  alarm_done, write_done, finish_done, on_read, on_alarm, on_write, on_finish, handle, run,
  commands_of,
}
use async_sandbox.Server.EchoService.Sessions.Fitting.{FitsAt}
use async_sandbox.Server.EchoService.Sessions.Runs.{read_by, read_by-commands, run-Fits, new-Fits}

-- Further events, without a request, that bring the session to its end.
abbrev pub CanEnd : Session → Type 0
CanEnd s =
    (es : List Event) × (s' : Session) × (run s es ≡ some s')
    × (s'.handler ≡ ended)
    × (commands_of es ≡ [])

CanEnd-step :
    (s s₁ : Session) (e : Event) → handle s e ≡ some s₁ → read_by e ≡ [] → CanEnd s₁ → CanEnd s
unfolding run
CanEnd-step s s₁ e h n (es, s', r, d, c) =
    (e ∷ es, s', rw (h, ◌>>=◌) r, d, sym (read_by-commands [] e es) ∙ (rw (n, c) refl))

CanEnd-either : (b : Bool) (s₁ s₂ : Session) → CanEnd s₁ → CanEnd s₂ → CanEnd (if b then s₁ else s₂)
CanEnd-either true s₁ s₂ y n = y
CanEnd-either false s₁ s₂ y n = n

CanEnd-no : (b : Bool) (s₁ s₂ : Session) → b ≡ false → CanEnd s₂ → CanEnd (if b then s₁ else s₂)
CanEnd-no true s₁ s₂ e n = cc
CanEnd-no false s₁ s₂ e n = n

abbrev at : Echo → HandlerAt → RoutineAt → List String → Session
at e h r w = record { echo = e; handler = h; routine = r; written = w }

CanEnd-finishing : (e : Echo) (r : RoutineAt) (w : List String) → CanEnd (at e finishing r w)
unfolding handle on_finish run
CanEnd-finishing e r w = (finish_done ∷ [], at e ended r w, refl, refl, refl)

CanEnd-awaiting : (e : Echo) (w : List String) → CanEnd (at e awaiting_end at_write w)
unfolding handle on_write
CanEnd-awaiting e w =
    CanEnd-step _ _ (write_done false) refl refl (CanEnd-finishing (end_subroutine e) absent w)

CanEnd-alarm :
    (e : Echo) (h : HandlerAt) (c : Bool) (w : List String)
    → CanEnd (at e h at_write (w ++ e.response ∷ []))
    → CanEnd (at e h (at_alarm c) w)
unfolding handle on_alarm
CanEnd-alarm e h c w k = CanEnd-step _ _ (alarm_done true) refl refl k

CanEnd-reading :
    (e : Echo) (r : RoutineAt) (w : List String)
    → CanEnd (leave_loop (at e reading r w))
    → CanEnd (at e reading r w)
unfolding handle on_read
CanEnd-reading e r w k = CanEnd-step _ _ read_failed refl refl k

CanEnd-absent : (e : Echo) (w : List String) → e.subroutine ≡ false → CanEnd (at e reading absent w)
unfolding leave_loop
CanEnd-absent e w n =
    CanEnd-reading e absent w
      (CanEnd-no e.subroutine (at e awaiting_end absent w) _ n (CanEnd-finishing e absent w))

CanEnd-present :
    (e : Echo) (r : RoutineAt) (w : List String)
    → CanEnd (await_routine (cancel r) awaiting_end (at e reading r w))
    → CanEnd (at e reading r w)
unfolding leave_loop
CanEnd-present e r w k =
    CanEnd-reading e r w (CanEnd-either e.subroutine _ _ k (CanEnd-finishing e r w))

CanEnd-next :
    (e : Echo) (w : List String) (b : Bool)
    → e.subroutine ≡ false
    → CanEnd (at e (if b then reading else finishing) absent w)
CanEnd-next e w true n = CanEnd-absent e w n
CanEnd-next e w false n = CanEnd-finishing e absent w

CanEnd-stopping : (e : Echo) (w : List String) → CanEnd (at e awaiting_stop at_write w)
unfolding handle on_write
CanEnd-stopping e w =
    CanEnd-step _ _ (write_done false) refl refl
      (CanEnd-next (end_subroutine e) w (is_ok e.status) refl)

CanEnd-at :
    (cs : List Command) (e : Echo) (h : HandlerAt) (r : RoutineAt) (w : List String)
    → FitsAt cs e r h
    → CanEnd (at e h r w)
unfolding run
CanEnd-at cs e reading absent w (a, b, c) = CanEnd-absent e w c
CanEnd-at cs e reading (at_alarm x) w f =
    CanEnd-present e (at_alarm x) w (CanEnd-alarm e awaiting_end true w (CanEnd-awaiting e _))
CanEnd-at cs e reading at_write w f = CanEnd-present e at_write w (CanEnd-awaiting e w)
CanEnd-at cs e reading left w f = CanEnd-present e left w (CanEnd-finishing _ absent w)
CanEnd-at cs e awaiting_stop absent w (a, b, c, d) = cc
CanEnd-at cs e awaiting_stop (at_alarm x) w f =
    CanEnd-alarm e awaiting_stop x w (CanEnd-stopping e _)
CanEnd-at cs e awaiting_stop at_write w f = CanEnd-stopping e w
CanEnd-at cs e awaiting_stop left w (a, b, c, d) = cc
CanEnd-at cs e awaiting_end absent w (a, b, c) = cc
CanEnd-at cs e awaiting_end (at_alarm x) w f = CanEnd-alarm e awaiting_end x w (CanEnd-awaiting e _)
CanEnd-at cs e awaiting_end at_write w f = CanEnd-awaiting e w
CanEnd-at cs e awaiting_end left w (a, b, c) = cc
CanEnd-at cs e finishing r w f = CanEnd-finishing e r w
CanEnd-at cs e ended r w f = ([], at e ended r w, refl, refl, refl)

-- Wherever its events have brought a session, further events without a request bring it to its end:
-- the handler is never left waiting for a subroutine that is gone.
pub run-CanEnd : (es : List Event) (s : Session) → run new_session es ≡ some s → CanEnd s
run-CanEnd es s q =
    CanEnd-at (commands_of es) s.echo s.handler s.routine s.written
      (run-Fits es [] new_session s new-Fits q)
