-- ===== src/Examples/Crossings.antt =====
-- A coroutine of the executor 5 that awaits a task of the executor 8
-- (`SpawnCrossTask` of async_lib/async_lib.hpp).
use async_sandbox.Prelude.{
  ℕ, ◌+◌, ◌≡◌, ◌==◌, refl, Bool, true, Option, none, some, ◌>>=◌, List, [], ◌∷◌, arith, update,
}
use async_sandbox.AsyncLib.Machine.{
  Code, co_return, Promise, World, go, cross, crossing, running, new_promise, run,
}
use async_sandbox.AsyncLib.Dialogue.{Seq, ret, request, denote, compile}
use async_sandbox.AsyncLib.Paths.{AwaitPath, leaf, Frames, Fresh, fill, meaning, waiting}
use async_sandbox.AsyncLib.Crossing.Results.{Cross, IsCross, Crosses, abroad, task_of, launched}
use async_sandbox.AsyncLib.Crossing.Starts.{awaiting_cross, cross-Crosses}
use async_sandbox.AsyncGrpc.CompletionQueue.{tick}
use async_sandbox.AsyncGrpc.CrossServing.{tick-Crosses}

abbrev add_one : ℕ → Seq ℕ
add_one r = ret (r + 1)

abbrev task : Seq ℕ
task = request 7 add_one

abbrev me : Promise ℕ
me = record {
  destroy_on_done = true;
  executor = some 5;
  parent = none;
  result = none;
  state = running;
}

abbrev rest : ℕ → Code ℕ
rest v = co_return v

abbrev no_frames : Frames ℕ
no_frames i = none

abbrev world_of : Frames ℕ → ℕ → List (ℕ × ℕ) → World ℕ
world_of f n asked = record {
  frames = f;
  next = n;
  inline_spawn = λ e. e == 8;
  ready = λ e. [];
  requests = asked;
}

abbrev before_frames : Frames ℕ
before_frames = update (update no_frames 0 (some me)) 1 (some (new_promise (compile task)))

before_frames-Fresh : Fresh before_frames 2
before_frames-Fresh i h = ground arith

cross-Crosses_example :
    (n : ℕ) × (w' : World ℕ) × (run n (go 0 (cross 8 1 rest) ∷ []) (world_of before_frames 2 [])
      ≡ some ([], w'))
    × Crosses
        (awaiting_cross (world_of before_frames 2 []) 0 1 me 5 8 rest)
        (update before_frames 0 (some (record me { state = crossing rest })))
        (λ e. [])
        w'
        (denote task)
cross-Crosses_example =
    cross-Crosses task (world_of before_frames 2 []) 0 1 me 5 8 rest refl refl refl refl refl
      (ground arith) (omega arith) (omega arith) before_frames-Fresh

abbrev crossed : Cross ℕ
crossed = record { j = 0; t = 1; l = 2; me = me; home = 5; abroad = 8; rest = rest }

abbrev parent_frames : Frames ℕ
parent_frames = update no_frames 0 (some (record me { state = crossing rest }))

crossed-IsCross : IsCross crossed parent_frames
crossed-IsCross = record {
  crosses = refl;
  at_home = refl;
  j_t = ground arith;
  j_l = ground arith;
  t_l = ground arith;
}

abbrev path : AwaitPath ℕ
path = leaf 7 add_one

abbrev waiting_world : World ℕ
waiting_world =
    world_of (fill path (launched crossed parent_frames) 1 (task_of crossed running) (waiting path))
      3 ((1, 7) ∷ [])

launched-Fresh : Fresh (launched crossed parent_frames) 3
launched-Fresh i h = ground arith

waiting-Crosses : Crosses crossed parent_frames (λ e. []) waiting_world (denote task)
unfolding denote
waiting-Crosses = abroad path [] refl tt refl refl refl (omega arith) launched-Fresh

tick-Crosses_example :
    (n : ℕ) × (w' : World ℕ) × (tick n (some (1, 5)) waiting_world ≡ some (true, w'))
    × Crosses crossed parent_frames (λ e. []) w' (meaning path 5)
unfolding denote
tick-Crosses_example =
    tick-Crosses crossed parent_frames (λ e. []) waiting_world 7 (meaning path) 1 crossed-IsCross
      refl waiting-Crosses refl 5

abbrev ready_jobs : Option (Bool × World ℕ) → Option (List ℕ)
ready_jobs o = do (more, w) ← o; some (w.ready 5)

-- The reply makes the coroutine ready on its own executor.
tick_runs : ready_jobs (tick 20 (some (1, 5)) waiting_world) ≡ some (0 ∷ [])
unfolding tick run compile
tick_runs = refl
