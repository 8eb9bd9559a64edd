-- ===== src/Examples/Echoes.antt =====
-- The services of async_grpc/server at concrete requests.
use async_sandbox.Prelude.{
  ◌&&◌, not, true, ◌-◌, ◌≡◌, refl, pos, negsuc, false, none, some, List, [], ◌∷◌,
}
use async_sandbox.AsyncGrpc.Status.{is_ok, ok_status}
use async_sandbox.Server.VariableService.{Request, write, read, del, handle_all}
use async_sandbox.Server.VariableService.Map.{Storage, find, insert_or_assign, erase, IsMap}
use async_sandbox.Server.VariableService.Refinement.{spec_all, handle_all-refines}
use async_sandbox.Server.EchoService.{
  Command, message, start, stop, Echo, server_stream_echo, u32_mod, bidirectional_echo,
}
use async_sandbox.Server.EchoService.Streams.{server_stream_echo_endless}
use async_sandbox.Server.EchoService.Writing.{
  Routine, at_write, start_routine, cancel_at, go_on, go_on_at, has_left, waits_for_alarm,
  cancel_ends,
}
use async_sandbox.Server.EchoService.Bidirectional.{refused_stop_is_ok}

abbrev storage : Storage
storage = ("level", pos 3) ∷ []

abbrev requests : List Request
requests = write "xp" (pos 5) ∷ read "xp" ∷ write "level" (negsuc 0) ∷ del "xp" ∷ read "xp" ∷ []

handle_all-refines_example :
    (find (handle_all storage requests).0 ≡ (spec_all (find storage) requests).0)
    × ((handle_all storage requests).1 ≡ (spec_all (find storage) requests).1)
    × IsMap (handle_all storage requests).0
handle_all-refines_example = handle_all-refines storage requests (tt, tt)

handle_all_runs : (handle_all storage requests).0 ≡ ("level", negsuc 0) ∷ []
unfolding handle_all find insert_or_assign erase
handle_all_runs = refl

server_stream_echo_endless_example : server_stream_echo 9 (u32_mod - 1) ≡ none
server_stream_echo_endless_example = server_stream_echo_endless 9

abbrev commands : List Command
commands = message "hello" 50 ∷ start ∷ stop ∷ start ∷ []

refused_stop_is_ok_example :
    (e : Echo) × (bidirectional_echo (stop ∷ commands) ≡ some (e, ok_status))
    × (is_ok e.status ≡ false)
refused_stop_is_ok_example = refused_stop_is_ok commands

-- The alarm rings, and the subroutine waits for its first write.
abbrev writing : Routine
writing = record (start_routine "hello") { place = at_write }

writing_runs : go_on 1 (λ n. true) (start_routine "hello") ≡ writing
unfolding go_on go_on_at
writing_runs = refl

cancel_ends_example :
    has_left (go_on 8 (λ n. true) (cancel_at writing.place writing)).place
    ≡ waits_for_alarm writing.place && not writing.alarm_rung
cancel_ends_example = cancel_ends (λ n. true) (λ n. refl) 7 writing (λ p. cc) refl
