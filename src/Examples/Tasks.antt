-- ===== src/Examples/Tasks.antt =====
-- A task that awaits another, which asks its executor 7 and adds 1 to the reply
-- (async_lib/async_lib.hpp, async_grpc/async_grpc/async_grpc.cpp, game/async_game.cpp).
use async_sandbox.Prelude.{
  ℕ, ◌+◌, ◌*◌, ◌≡◌, refl, false, Option, none, some, ◌>>=◌, List, [], ◌∷◌, map, arith, update,
}
use async_sandbox.AsyncLib.Machine.{Promise, World, suspended, running, resume, run}
use async_sandbox.AsyncLib.Dialogue.{Seq, ret, request, bind, and_then, denote, compile}
use async_sandbox.AsyncLib.Paths.{AwaitPath, leaf, under, Frames, Fresh, fill, waiting}
use async_sandbox.AsyncLib.Resumption.{Serves, waits, resume-Serves}
use async_sandbox.AsyncGrpc.CompletionQueue.{executor_thread}
use async_sandbox.AsyncGrpc.Serving.{executor_thread-Serves, taken, comes_to}
use async_sandbox.Game.Executor.{mark_ready, update_executor}
use async_sandbox.Game.Executor.Updates.{spawned, bound, update_executor-Serves}

abbrev add_one : ℕ → Seq ℕ
add_one r = ret (r + 1)

abbrev twice : ℕ → Seq ℕ
twice v = ret (v * 2)

abbrev task : Seq ℕ
task = bind (request 7 add_one) twice

abbrev root : Promise ℕ
root = spawned 0 running

abbrev no_frames : Frames ℕ
no_frames i = none

abbrev world_of : Frames ℕ → ℕ → List (ℕ × ℕ) → World ℕ
world_of f n asked = record {
  frames = f;
  next = n;
  inline_spawn = λ e. false;
  ready = λ e. [];
  requests = asked;
}

abbrev suspended_root : Frames ℕ
suspended_root = update no_frames 0 (some (spawned 0 (suspended (compile task))))

suspended_root-Fresh : Fresh suspended_root 1
suspended_root-Fresh i h = ground arith

no_frames-Fresh : (n : ℕ) → Fresh no_frames n
no_frames-Fresh n i h = refl

resume-Serves_example :
    (n : ℕ) × (w' : World ℕ) × (run n (resume 0 ∷ []) (world_of suspended_root 1 [])
      ≡ some ([], w'))
    × Serves suspended_root 0 root w' (denote task)
    × (w'.ready ≡ λ e. [])
resume-Serves_example =
    resume-Serves task (world_of suspended_root 1 []) 0 root refl refl (omega arith)
      suspended_root-Fresh

-- The root awaits the frame 1, which waits for the reply to 7.
abbrev path : AwaitPath ℕ
path = under 1 twice (leaf 7 add_one)

abbrev waiting_world : World ℕ
waiting_world = world_of (fill path no_frames 0 root (waiting path)) 2 ((1, 7) ∷ [])

path-Serves : Serves no_frames 0 root waiting_world (denote task)
unfolding denote and_then
path-Serves =
    waits path [] refl (refl, ground arith, omega arith, tt) refl refl (omega arith)
      (no_frames-Fresh 2)

executor_thread-Serves_example :
    (n : ℕ) × (es : List (ℕ × ℕ)) × (w' : World ℕ) × (map (λ e. e.1) es
      ≡ taken (denote task) (5 ∷ []))
    × (executor_thread n es waiting_world ≡ some w')
    × Serves no_frames 0 root w' (comes_to (denote task) (5 ∷ []))
executor_thread-Serves_example =
    executor_thread-Serves no_frames 0 root waiting_world (denote task) refl path-Serves (5 ∷ [])

update_executor-Serves_example :
    (fuel : ℕ) × (w' : World ℕ) × (update_executor 2 fuel
        (mark_ready (bound (world_of no_frames 1 []) 3 0 task) 3 0)
        3
      ≡ some w')
    × Serves
        (bound (world_of no_frames 1 []) 3 0 task).frames
        0
        (spawned 3 running)
        w'
        (denote task)
    × (w'.ready 3 ≡ [])
update_executor-Serves_example =
    update_executor-Serves task (world_of no_frames 1 []) 3 0 refl (omega arith) (no_frames-Fresh 1)

abbrev result_of : Option (World ℕ) → ℕ → Option ℕ
result_of o t = do w ← o; p ← w.frames t; p.result

-- A root that is not to be destroyed keeps the doubled sum as its result.
abbrev kept_world : World ℕ
kept_world =
    world_of (fill path no_frames 0 (record root { destroy_on_done = false }) (waiting path)) 2
      ((1, 7) ∷ [])

executor_thread_runs : result_of (executor_thread 20 ((1, 5) ∷ []) kept_world) 0 ≡ some 12
unfolding executor_thread run compile
executor_thread_runs = refl
