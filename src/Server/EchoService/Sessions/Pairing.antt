-- ===== src/Server/EchoService/Sessions/Pairing.antt =====
-- The starts and stops of the subroutine over a session of the bidirectional stream
-- (async_grpc/server/echo_service_impl.cpp).
use async_sandbox.Prelude.{◌≡◌, refl, sym, ap, ◌∙◌, subst, true, false, some, List, []}
use async_sandbox.Server.EchoService.{Command, Echo, initial, process_all, clean_up}
use async_sandbox.Server.EchoService.Bidirectional.{
  running_after, IsPaired, process_all-IsPaired, clean_up-IsPaired, end_subroutine-IsPaired,
}
use async_sandbox.Server.EchoService.Sessions.{
  HandlerAt, reading, awaiting_stop, awaiting_end, finishing, ended, RoutineAt, absent, at_alarm,
  at_write, left, Session, new_session, Event, run, commands_of,
}
use async_sandbox.Server.EchoService.Sessions.Fitting.{FitsAt, is_present, is_waiting}
use async_sandbox.Server.EchoService.Sessions.Runs.{run-Fits, new-Fits}

clean-IsPaired :
    (cs : List Command) (e f : Echo)
    → process_all initial cs ≡ some f
    → clean_up f ≡ e
    → IsPaired e × (e.subroutine ≡ false)
clean-IsPaired cs e f a b =
    subst (λ (x : Echo). IsPaired x × (x.subroutine ≡ false)) b
      (clean_up-IsPaired f (process_all-IsPaired initial f cs refl a))

IsPaired-at :
    (cs : List Command) (e : Echo) (r : RoutineAt) (h : HandlerAt) → FitsAt cs e r h → IsPaired e
IsPaired-at cs e r reading (a, b, c) = process_all-IsPaired initial e cs refl a
IsPaired-at cs e r awaiting_stop (a, b, c, d) =
    end_subroutine-IsPaired e c (process_all-IsPaired initial _ cs refl a)
IsPaired-at cs e r awaiting_end (a, b, c) = process_all-IsPaired initial e cs refl a
IsPaired-at cs e r finishing (f, a, b, c) = (clean-IsPaired cs e f a b).0
IsPaired-at cs e r ended (f, a, b, c) = (clean-IsPaired cs e f a b).0

waiting-is_present : (r : RoutineAt) → is_waiting r ≡ true → is_present r ≡ true
waiting-is_present absent h = cc
waiting-is_present (at_alarm c) h = refl
waiting-is_present at_write h = refl
waiting-is_present left h = refl

held_at :
    (cs : List Command) (e : Echo) (r : RoutineAt) (h : HandlerAt)
    → FitsAt cs e r h
    → e.subroutine ≡ is_present r
held_at cs e r reading (a, b, c) = c
held_at cs e r awaiting_stop (a, b, c, d) = c ∙ sym (waiting-is_present r d)
held_at cs e r awaiting_end (a, b, c) = b ∙ sym (waiting-is_present r c)
held_at cs e r finishing (f, a, b, c) = (clean-IsPaired cs e f a b).1 ∙ sym (ap is_present c)
held_at cs e r ended (f, a, b, c) = (clean-IsPaired cs e f a b).1 ∙ sym (ap is_present c)

none_left :
    (cs : List Command) (e : Echo) (r : RoutineAt) (h : HandlerAt)
    → h ≡ ended
    → FitsAt cs e r h
    → e.subroutine ≡ false
none_left cs e r reading q f = cc
none_left cs e r awaiting_stop q f = cc
none_left cs e r awaiting_end q f = cc
none_left cs e r finishing q f = cc
none_left cs e r ended q (f, a, b, c) = (clean-IsPaired cs e f a b).1

-- Whatever the events of a session, the handler has started its subroutine only on a message that is
-- not empty with a delay that is not 0 while none ran, and behind each start but the last it has stopped
-- and awaited it before the next; it holds a subroutine exactly if the last start is without a stop, and
-- exactly while the subroutine's frame is there, and none once it has ended.
pub run-paired :
    (es : List Event) (s : Session)
    → run new_session es ≡ some s
    → (running_after false s.echo.effects ≡ some s.echo.subroutine)
      × (s.echo.subroutine ≡ is_present s.routine)
      × (s.handler ≡ ended → s.echo.subroutine ≡ false)
run-paired es s q =
    let f = run-Fits es [] new_session s new-Fits q in
    (
      IsPaired-at (commands_of es) s.echo s.routine s.handler f,
      held_at (commands_of es) s.echo s.routine s.handler f,
      λ h. none_left (commands_of es) s.echo s.routine s.handler h f,
    )
