-- ===== src/Lib.antt =====
-- Models of async_sandbox: a small library of coroutine tasks, its executors over gRPC's completion
-- queues and over the frames of a game, and the services and programs that use them.
--
-- The parts and where they are modelled:
--   async_lib/async_lib.hpp                  AsyncLib.Machine: coroutine frames with their promises on
--     a heap (`World`), and the C++ stack of a thread as a list of `Action`s. `step` runs the action on
--     top up to the next call: `Resume` is `resume` with `enter_frame` and `settle_frame`, the await of
--     a task is `await_task`, `bind_child`, `after_start` and `continue_from`, `StartSubroutine` is
--     `start_task`, `Spawn` is `spawn_task`, `SpawnCrossTask` is `cross_task` and `launch_child`.
--     AsyncLib.Dialogue says what a task means when an await is a call: requests to the executor,
--     with what follows each reply, and an answer in the end. AsyncLib.Paths, Nesting and Resumption
--     relate the two: `Serves` says that a world stands where a dialogue stands. AsyncLib.Crossing does
--     the same for a task that a coroutine of another executor awaits: `Crosses`. AsyncLib.Owners tells
--     the frames of several root tasks on one heap apart.
--   async_grpc/async_grpc/async_grpc.hpp, .cpp   AsyncGrpc.CompletionQueue: `Tick` takes an event, hands
--     its flag to the awaitable and resumes the job, with the machine of AsyncLib. AsyncGrpc.Serving
--     and CrossServing follow the dialogues of tasks through the events, and Interleaving those of
--     several root tasks at once: `AllStand` says where each of them stands, and which frames are its.
--     Its Subroutines and Awaits say the same around a coroutine with no parent that runs, `Beside`, which starts a
--     subroutine or awaits one.
--   async_grpc/async_grpc/client.hpp, .cpp   AsyncGrpc.Unary and AsyncGrpc.Retry: `CallUnary`,
--     `AutoRetryUnary`, `DefaultRetryPolicy`. AsyncGrpc.RoundRobin: `SelectNextChannel`, and
--     `SelectNextExecutor` of server.cpp.
--   async_grpc/async_grpc/server.hpp, .cpp   AsyncGrpc.Unary has the ends of a unary call.
--     AsyncGrpc.Listening: `Server::Server` is `new_server`, `StartListeningUnary` and its kin are
--     `start_listening`, and the loops `ListenUnary` and its kin are `after_listen` and `on_event`,
--     which take one event of a loop each; `serve` takes many.
--     Server.Contexts: the operations of the contexts of the four kinds of calls.
--   async_grpc/async_grpc/iostream.cpp       AsyncGrpc.Status: status codes and their names;
--     Printing has the texts that the stream operators write.
--   async_grpc/server/variable_service_impl.cpp  Server.VariableService, with its map in Map.
--   async_grpc/server/echo_service_impl.cpp  Server.EchoService: the four handlers;
--     there the awaits of the bidirectional stream's subroutine return at once. Writing has that
--     subroutine, with the cancels that are lost on it. Sessions has the handler and the
--     subroutine side by side: `handle` takes one event of the completion queue to either of them.
--     Server.Handlers has the handlers of both services as tasks that ask for these operations.
--   async_grpc/server/main.cpp               Server.Program: the services' methods and the options.
--   async_grpc/client/main.cpp               Client.Program: the commands, and `main_loop`. Client.Tasks:
--     the handlers as tasks of AsyncLib.Dialogue, whose requests are the operations of the calls of
--     client.hpp. Client.Bidirectional: the steps of the bidirectional call, with its
--     read subroutine beside them in Sessions. Client.Calls: the protocol that gRPC documents for the
--     operations of a call, which is not code of client.hpp.
--     Client.Outcomes, Reads and Retries say what the handlers come to against the services of the server.
--   utils/expected.hpp                       Utils.Expected.
--   utils/logs.hpp, logs.cpp                 Utils.Logs: a line of the log and its moves.
--   game/async_game.cpp                      Game.Executor: `MarkReady` and `Update`, on the machine.
--   game/character_service.hpp, character_service_memory.cpp   Game.CharacterService.
--   game/character_service_grpc.cpp          Game.CharacterServiceGrpc: the same service by calls with
--     retries (AsyncGrpc.Retry) of the handlers of Server.VariableService.
--   game/main.cpp                            Game.Character: a character, and the frames of the game.
--     Game.InputHandler: the thread that reads the console, beside the game; `thread_step` and
--     `game_step` are the steps of the two threads between which the other one may run.
--     Game.Program: `main`'s command line, and `MakeCharacterService`.
--   Examples has the models at concrete inputs.
--
-- Numbers are natural numbers with the wrap of the source written out (`size_t`, `uint32_t`);
-- `int64_t` is an integer whose overflow is a fault, since it is undefined in C++. `none` is a fault:
-- a failed assertion, a null or dangling pointer, an undefined resumption. Where a model takes fuel,
-- a theorem gives an amount that is enough: some amount for the machine (`run`, `tick`), six rounds
-- for the loop of retries, two rounds for an update with one job, `count + 1` for a server stream, four
-- rounds for its client.
--
-- What gRPC does is an argument: the events of a queue, what becomes of each call and alarm, the events
-- of the loops that listen, which are delivered on the executor that the loop listens with, and which
-- operations of a stream call work. In `resume-Serves` and what rests on it, tasks await each task that
-- they call; tasks across executors without a result are in the machine, without theorems. Several
-- threads on one completion queue, whose steps interleave, are not modelled: the source keeps no order
-- there, and reads memory that another thread may have freed. Not modelled either: the wait for the
-- console in the server's main program, the options of writes, and generated code. The lines
-- that the other parts log are left out of their models.
pub mod Prelude
pub mod Utils
pub mod AsyncLib
pub mod AsyncGrpc
pub mod Server
pub mod Client
pub mod Game
pub mod Examples
