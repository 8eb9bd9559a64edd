-- ===== src/Examples/Sessions.antt =====
-- Sessions of the bidirectional stream, of the server and of the client.
use async_sandbox.Prelude.{◌≡◌, refl, true, false, none, some, List, [], ◌∷◌, ◌++◌, if◌then◌else◌}
use async_sandbox.AsyncGrpc.Status.{ok_status}
use async_sandbox.Server.EchoService.{
  started, stopped, message, start, stop, Echo, initial, process, bidirectional_echo,
}
use async_sandbox.Server.EchoService.Sessions.{
  finishing, ended, absent, Session, new_session, leave_loop, loop, process_request, Event,
  read_request, read_failed, alarm_done, write_done, finish_done, on_read, on_alarm, on_write,
  on_finish, handle, run, commands_of,
}
use async_sandbox.Server.EchoService.Sessions.Runs.{run-ends, run_finishes_alone}
use async_sandbox.Server.EchoService.Bidirectional.{running_after}
use async_sandbox.Server.EchoService.Sessions.Fitting.{is_present}
use async_sandbox.Server.EchoService.Sessions.Pairing.{run-paired}
use async_sandbox.Server.EchoService.Sessions.Ends.{CanEnd, run-CanEnd}
use async_sandbox.Client.Outcomes.{all_work}
use async_sandbox.Client.Bidirectional.{not_started, aborted, finished}
use async_sandbox.Client.Bidirectional.Sessions as Calls
use async_sandbox.Client.Bidirectional.Sessions.Fitting.{works_of}
use async_sandbox.Client.Bidirectional.Sessions.Agreement.{run-end}
use async_sandbox.Client.Bidirectional.Sessions.Ends.{CanFinish, run-CanFinish}

-- The write is under way when the stop is read, so that one more alarm is needed; the second
-- subroutine ends with a write that fails.
abbrev to_the_end : List Event
to_the_end =
    read_request (message "hi" 5)
    ∷ read_request start
    ∷ alarm_done true
    ∷ read_request stop
    ∷ write_done true
    ∷ alarm_done true
    ∷ write_done false
    ∷ read_request start
    ∷ read_failed
    ∷ alarm_done false
    ∷ []

abbrev echoed : Echo
echoed = record initial {
  response = "hi";
  delay_ms = 5;
  effects = started "hi" 5 ∷ stopped ∷ started "hi" 5 ∷ stopped ∷ [];
}

abbrev finishing_session : Session
finishing_session = record {
  echo = echoed;
  handler = finishing;
  routine = absent;
  written = "hi" ∷ "hi" ∷ [];
}

to_the_end_runs : run new_session to_the_end ≡ some finishing_session
unfolding run handle on_read on_alarm on_write on_finish process_request loop leave_loop process
to_the_end_runs = refl

ended_runs :
    run new_session (to_the_end ++ finish_done ∷ [])
    ≡ some (record finishing_session { handler = ended })
unfolding run handle on_read on_alarm on_write on_finish process_request loop leave_loop process
ended_runs = refl

run-ends_example :
    bidirectional_echo (commands_of (to_the_end ++ finish_done ∷ [])) ≡ some (echoed, ok_status)
run-ends_example =
    run-ends (to_the_end ++ finish_done ∷ []) (record finishing_session { handler = ended })
      ended_runs refl

run_finishes_alone_example : finishing_session.routine ≡ absent
run_finishes_alone_example = run_finishes_alone to_the_end finishing_session to_the_end_runs refl

run-paired_example :
    (running_after false finishing_session.echo.effects ≡ some finishing_session.echo.subroutine)
    × (finishing_session.echo.subroutine ≡ is_present finishing_session.routine)
    × (finishing_session.handler ≡ ended → finishing_session.echo.subroutine ≡ false)
run-paired_example = run-paired to_the_end finishing_session to_the_end_runs

run-CanEnd_example : CanEnd finishing_session
run-CanEnd_example = run-CanEnd to_the_end finishing_session to_the_end_runs

abbrev calling : List Calls.Event
calling =
    Calls.started true
    ∷ Calls.step_done true
    ∷ Calls.step_done true
    ∷ Calls.read_done (some "guten tag")
    ∷ Calls.step_done true
    ∷ Calls.step_done true
    ∷ Calls.step_done true
    ∷ []

abbrev waiting_call : Calls.Session
waiting_call = record {
  handler = Calls.awaiting;
  reader = Calls.reading;
  cancelled = true;
  received = "guten tag" ∷ [];
}

calling_runs : Calls.run Calls.new_session calling ≡ some waiting_call
unfolding Calls.run Calls.handle Calls.on_started Calls.on_step Calls.on_read Calls.go_on
calling_runs = refl

abbrev finished_call : Calls.Session
finished_call = record waiting_call { handler = Calls.ended finished; reader = Calls.absent }

finished_runs :
    Calls.run Calls.new_session (calling ++ Calls.read_done none ∷ []) ≡ some finished_call
unfolding Calls.run Calls.handle Calls.on_started Calls.on_step Calls.on_read Calls.go_on
finished_runs = refl

abbrev finished_events : List Calls.Event
finished_events = calling ++ Calls.read_done none ∷ []

run-end_example :
    (finished ≡ (
      if works_of (Calls.flags_of finished_events) 0
      then if all_work (works_of (Calls.flags_of finished_events)) 1 5 then finished else aborted
      else not_started))
    × (finished_call.received ≡ Calls.responses_of finished_events)
run-end_example = run-end finished_events finished_call finished finished_runs refl

run-CanFinish_example : CanFinish waiting_call
run-CanFinish_example = run-CanFinish calling waiting_call calling_runs refl
