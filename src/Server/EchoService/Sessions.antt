-- ===== src/Server/EchoService/Sessions.antt =====
-- `BidirectionalStreamEchoImpl` of async_grpc/server/echo_service_impl.cpp with its write subroutine
-- beside it: what the two wait for, and how each event of the completion queue moves them on. The
-- events come in any order in which they can occur; one that cannot is `none`, as is the failed
-- assertion.
pub mod Ends
pub mod Fitting
pub mod Pairing
pub mod Runs
use Prim.Native.String.{String}
use async_sandbox.Prelude.{
  Bool, true, false, Option, none, some, List, [], ◌∷◌, ◌++◌, ◌>>=◌, if◌then◌else◌,
}
use async_sandbox.AsyncGrpc.Status.{is_ok}
use async_sandbox.Server.EchoService.{
  Command, message, start, stop, unset, Echo, initial, process, end_subroutine,
}

-- What the handler waits for: a request, the subroutine behind a stop or behind the loop, the end of
-- `Finish`; or it has ended.
pub data HandlerAt : Type 0 where
  reading awaiting_stop awaiting_end finishing ended : HandlerAt

-- What the subroutine waits for: its alarm, which may be cancelled, or a write; or it has left its
-- loop. Without a subroutine it is absent.
pub data RoutineAt : Type 0 where
  absent : RoutineAt
  at_alarm : Bool → RoutineAt
  at_write : RoutineAt
  left : RoutineAt

pub record Session : Type 0 where
  pub echo : Echo
  pub handler : HandlerAt
  pub routine : RoutineAt
  -- the responses given to `Write`, oldest first
  pub written : List String

abbrev pub new_session : Session
new_session = record { echo = initial; handler = reading; routine = absent; written = [] }

-- `alarm.Cancel()`
abbrev pub cancel : RoutineAt → RoutineAt
cancel (at_alarm cancelled) = at_alarm true
cancel r = r

-- Behind `co_await std::move(subroutine)`. A stop goes on with the test of the loop.
abbrev pub after_await : HandlerAt → Session → Session
after_await awaiting_stop s = record s {
  echo = end_subroutine s.echo;
  routine = absent;
  handler = if is_ok s.echo.status then reading else finishing;
}
after_await _ s = record s { echo = end_subroutine s.echo; routine = absent; handler = finishing }

-- `co_await std::move(subroutine)`, which does not wait for a subroutine that has left its loop.
abbrev pub await_routine : RoutineAt → HandlerAt → Session → Session
await_routine left h s = after_await h s
await_routine r h s = record s { routine = r; handler = h }

-- Behind the loop.
unfoldable pub leave_loop : Session → Session
leave_loop s =
    if s.echo.subroutine
    then await_routine (cancel s.routine) awaiting_end s
    else record s { handler = finishing }

-- The test of the loop.
unfoldable pub loop : Session → Session
unfolding leave_loop
loop s = if is_ok s.echo.status then record s { handler = reading } else leave_loop s

-- A subroutine that was started stands at its first alarm.
abbrev pub with_routine : Bool → RoutineAt → RoutineAt
with_routine true absent = at_alarm false
with_routine _ r = r

unfoldable pub process_request : Session → Command → Option Session
unfolding loop process
process_request s stop =
    if s.echo.subroutine
    then some (await_routine (cancel s.routine) awaiting_stop s)
    else (do e ← process s.echo stop; some (loop (record s { echo = e })))
process_request s c = do
  e ← process s.echo c
  some (loop (record s { echo = e; routine = with_routine e.subroutine s.routine }))

-- The subroutine has left its loop, and resumes the handler if that awaits it.
abbrev pub routine_left : HandlerAt → Session → Session
routine_left awaiting_stop s = after_await awaiting_stop s
routine_left awaiting_end s = after_await awaiting_end s
routine_left _ s = record s { routine = left }

pub data Event : Type 0 where
  read_request : Command → Event
  -- `Read` gives false.
  read_failed : Event
  -- The alarm rings, or was cancelled; one that has rung before it is cancelled still rings.
  alarm_done : Bool → Event
  write_done : Bool → Event
  finish_done : Event

unfoldable pub on_read : Option Command → HandlerAt → Session → Option Session
unfolding process_request leave_loop
on_read none reading s = some (leave_loop s)
on_read (some c) reading s = process_request s c
on_read c _ s = none

unfoldable pub on_alarm : Bool → RoutineAt → Session → Option Session
on_alarm true (at_alarm cancelled) s =
    some (record s { routine = at_write; written = s.written ++ s.echo.response ∷ [] })
on_alarm false (at_alarm true) s = some (routine_left s.handler s)
on_alarm rang _ s = none

unfoldable pub on_write : Bool → RoutineAt → Session → Option Session
on_write true at_write s = some (record s { routine = at_alarm false })
on_write false at_write s = some (routine_left s.handler s)
on_write ok _ s = none

unfoldable pub on_finish : HandlerAt → Session → Option Session
on_finish finishing s = some (record s { handler = ended })
on_finish _ s = none

unfoldable pub handle : Session → Event → Option Session
unfolding on_read on_alarm on_write on_finish
handle s (read_request c) = on_read (some c) s.handler s
handle s read_failed = on_read none s.handler s
handle s (alarm_done rang) = on_alarm rang s.routine s
handle s (write_done ok) = on_write ok s.routine s
handle s finish_done = on_finish s.handler s

unfoldable pub run : Session → List Event → Option Session
unfolding handle
run s [] = some s
run s (e ∷ es) = do s₁ ← handle s e; run s₁ es

-- The requests that were read.
abbrev pub commands_of : List Event → List Command
commands_of [] = []
commands_of (read_request c ∷ es) = c ∷ commands_of es
commands_of (e ∷ es) = commands_of es
