-- ===== src/Examples/Listening.antt =====
-- The example server with two executors (async_grpc/async_grpc/server.hpp, async_grpc/server).
use async_sandbox.Prelude.{ℕ, ◌+◌, ◌≤◌, ◌≡◌, refl, true, false, some, List, [], ◌∷◌, map, arith}
use async_sandbox.AsyncGrpc.RoundRobin.{select_next_executor}
use async_sandbox.AsyncGrpc.Listening.{Server, select, new_server, after_listen, on_event, serve}
use async_sandbox.AsyncGrpc.Listening.Loads.{load}
use async_sandbox.AsyncGrpc.Listening.Shares.{load_even}
use async_sandbox.AsyncGrpc.Listening.Refinement.{view, seen, spec_events, serve-refines}
use async_sandbox.AsyncGrpc.Listening.Starts.{accepted}
use async_sandbox.Server.Program.{Method, unary_echo, write, read, server_options}

abbrev calls : List ℕ
calls = 4 ∷ 0 ∷ 4 ∷ 5 ∷ []

abbrev called : List Method
called = write ∷ unary_echo ∷ write ∷ read ∷ []

load_even_example :
    (s : Server Method) × (s' : Server Method) × (new_server (server_options 2) ≡ some s)
    × (serve s (map accepted calls) ≡ some s')
    × (load 1 s' ≤ load 0 s' + 1)
load_even_example =
    load_even (server_options 2) calls called 1 0 (omega arith) (omega arith) refl (omega arith)

-- One loop, whose second `Listen` fails.
abbrev one_loop : Server Method
one_loop = record {
  executors = record { executors = 0 ∷ 1 ∷ []; next_executor = 0 };
  listeners = record { method = write; spawned_on = 0; listens_on = some 1 } ∷ [];
  handlers = [];
}

serve_runs :
    seen (serve one_loop ((0, true) ∷ (0, false) ∷ []))
    ≡ some (record { loops = (write, false) ∷ []; calls = write ∷ [] })
unfolding serve on_event after_listen select select_next_executor
serve_runs = refl

serve-refines_example :
    seen (serve one_loop ((0, true) ∷ (0, false) ∷ []))
    ≡ spec_events (view one_loop) ((0, true) ∷ (0, false) ∷ [])
serve-refines_example = serve-refines ((0, true) ∷ (0, false) ∷ []) one_loop 2 refl (omega arith)
