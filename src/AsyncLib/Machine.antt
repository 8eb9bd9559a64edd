-- ===== src/AsyncLib/Machine.antt =====
-- async_lib/async_lib.hpp as a machine: coroutine frames with their promises on a heap, and the C++
-- call stack as an explicit list of actions, so that one step runs the code up to the next call.
-- A fault (`none`) is an assertion that fails, a null or dangling pointer, or a resumption that
-- the language leaves undefined.
use async_sandbox.Prelude.{
  ℕ, zero, suc, Bool, true, false, Option, none, some, List, [], ◌∷◌, ◌++◌, ◌==◌, if◌then◌else◌,
  ◌>>=◌, update,
}

abbrev pub FrameId : Type 0
FrameId = ℕ

abbrev pub ExecutorId : Type 0
ExecutorId = ℕ

-- What is left of the body of a coroutine.
pub data Code (V : Type 0) : Type 0 where
  co_return : V → Code V
  return_void : Code V
  throw : Code V
  -- a call of a coroutine function: a frame that waits at its initial suspend point
  call : Code V → (FrameId → Code V) → Code V
  await : FrameId → (V → Code V) → Code V
  await_void : FrameId → Code V → Code V
  start_subroutine : FrameId → Code V → Code V
  spawn : ExecutorId → FrameId → Code V → Code V
  cross : ExecutorId → FrameId → (V → Code V) → Code V
  cross_void : ExecutorId → FrameId → Code V → Code V
  -- an awaitable of the executor: a request, and what follows its reply
  suspend : V → (V → Code V) → Code V
  -- `m_result = v`, in the awaitable on which the given frame waits
  store_result : FrameId → V → Code V → Code V
  -- `parent.promise->executor->Spawn(parent)`
  respawn : FrameId → Code V → Code V

-- Where a coroutine stands.
pub data State (V : Type 0) : Type 0 where
  suspended : Code V → State V
  awaiting : FrameId → (V → Code V) → State V
  awaiting_void : FrameId → Code V → State V
  crossing : (V → Code V) → State V
  blocked : V → (V → Code V) → State V
  running : State V
  done : State V

pub record Promise (V : Type 0) : Type 0 where
  pub destroy_on_done : Bool
  pub executor : Option ExecutorId
  pub parent : Option FrameId
  pub result : Option V
  pub state : State V

pub record World (V : Type 0) : Type 0 where
  pub frames : FrameId → Option (Promise V)
  pub next : FrameId
  -- whether `Spawn` of an executor resumes the job at once, or keeps it in `ready`
  pub inline_spawn : ExecutorId → Bool
  pub ready : ExecutorId → List FrameId
  -- what the frames have asked of their executors, oldest first
  pub requests : List (FrameId × V)

-- A call in progress, on the stack of the thread.
pub data Action (V : Type 0) : Type 0 where
  -- `Resume(job)`
  resume : FrameId → Action V
  -- `job.handle.resume()`
  enter : FrameId → Action V
  -- `Resume(job)` after `job.handle.resume()`
  settle : FrameId → Action V
  -- the body of a coroutine
  go : FrameId → Code V → Action V
  -- `TaskAwait::await_suspend` of the first frame after `cur.resume()` of the second
  returned : FrameId → FrameId → Action V

abbrev pub Outcome : Type 0 → Type 0
Outcome V = Option (List (Action V) × World V)

abbrev pub is_done : {V : Type 0} → State V → Bool
is_done done = true
is_done _ = false

abbrev pub new_promise : {V : Type 0} → Code V → Promise V
new_promise c = record {
  destroy_on_done = false;
  executor = none;
  parent = none;
  result = none;
  state = suspended c;
}

abbrev pub same_executor : Option ExecutorId → ExecutorId → Bool
same_executor none e = false
same_executor (some d) e = d == e

module _ {V : Type 0} where
  abbrev pub set_frame : World V → FrameId → Promise V → World V
  set_frame w t p = record w { frames = update w.frames t (some p) }

  abbrev pub set_state : World V → FrameId → Promise V → State V → World V
  set_state w t p s = set_frame w t (record p { state = s })

  -- `handle.destroy()`
  abbrev pub destroy : World V → FrameId → World V
  destroy w t = record w { frames = update w.frames t none }

  abbrev pub new_frame : World V → Code V → World V
  new_frame w c = record w {
    frames = update w.frames w.next (some (new_promise c));
    next = suc w.next;
  }

  -- `executor.Spawn(job)`
  unfoldable pub executor_spawn : World V → ExecutorId → FrameId → List (Action V) × World V
  executor_spawn w e t =
      if w.inline_spawn e
      then (resume t ∷ [], w)
      else ([], record w { ready = update w.ready e (w.ready e ++ t ∷ []) })

  -- A resumed coroutine runs on from where it stood. Behind a `co_await` of a task it takes the
  -- result out of the task's promise and destroys the task's frame.
  unfoldable pub continue_from : World V → FrameId → State V → Outcome V
  continue_from w j (suspended c) = some (go j c ∷ [], w)
  continue_from w j (awaiting t k) = do
    p ← w.frames t
    v ← p.result
    some (go j (k v) ∷ [], destroy w t)
  continue_from w j (awaiting_void t c) = do p ← w.frames t; some (go j c ∷ [], destroy w t)
  continue_from w j _ = none

  -- The part of `TaskAwait::await_suspend` behind `m_promise->parent = Job(parent)`: a task that
  -- was not started yet is bound to the executor of its parent and starts.
  unfoldable pub bind_child :
      World V → FrameId → Promise V → FrameId → Promise V → Option ExecutorId → Outcome V
  bind_child w j me t child none =
      some (enter t ∷ returned j t ∷ [], set_frame w t (record child { executor = me.executor }))
  bind_child w j me t child (some e) =
      if same_executor me.executor e then some ([], set_frame w t child) else none

  -- `TaskAwait`: a task that is done already gives its result at once.
  unfoldable pub await_task : World V → FrameId → FrameId → State V → Outcome V
  unfolding continue_from bind_child
  await_task w j t st = do
    me ← w.frames j
    child ← w.frames t
    if is_done child.state
        then continue_from w j st
        else bind_child (set_state w j me st) j me t (record child { parent = some j })
            child.executor

  -- `StartSubroutine::await_suspend`, which always lets the parent go on
  unfoldable pub start_task : World V → FrameId → FrameId → Code V → Outcome V
  start_task w j t c = do
    me ← w.frames j
    child ← w.frames t
    some (
      enter t ∷ enter j ∷ [],
      set_frame (set_state w j me (suspended c)) t (record child { executor = me.executor }),
    )

  -- `async_lib::Spawn`
  unfoldable pub spawn_task : World V → ExecutorId → FrameId → Outcome V
  unfolding executor_spawn
  spawn_task w e t = do
    p ← w.frames t
    some (
        executor_spawn (set_frame w t (record p { executor = some e; destroy_on_done = true })) e t)

  -- `SpawnCrossTask::LaunchChild`
  unfoldable pub launch_child : FrameId → FrameId → Code V
  launch_child parent task = await task (λ v. store_result parent v (respawn parent return_void))

  unfoldable pub launch_child_void : FrameId → FrameId → Code V
  launch_child_void parent task = await_void task (respawn parent return_void)

  -- `SpawnCrossTask::await_suspend`
  unfoldable pub cross_task : World V → FrameId → ExecutorId → State V → Code V → Outcome V
  unfolding spawn_task
  cross_task w j e st launch = do
    me ← w.frames j
    spawn_task (new_frame (set_state w j me st) launch) e w.next

  unfoldable pub store_cross : World V → FrameId → Promise V → V → State V → Option (World V)
  store_cross w t p v (crossing k) = some (set_state w t p (suspended (k v)))
  store_cross w t p v _ = none

  unfoldable pub then_go : FrameId → Code V → List (Action V) × World V → List (Action V) × World V
  then_go j c (todo, w) = (todo ++ go j c ∷ [], w)

  -- The body of a coroutine, up to its next call or suspend point.
  unfoldable pub run_code : World V → FrameId → Code V → Outcome V
  unfolding await_task start_task spawn_task cross_task store_cross then_go launch_child
      launch_child_void
  run_code w j (co_return v) = do
    me ← w.frames j
    some ([], set_frame w j (record me { result = some v; state = done }))
  run_code w j return_void = do me ← w.frames j; some ([], set_state w j me done)
  run_code w j throw = do me ← w.frames j; some ([], set_state w j me done)
  run_code w j (call c k) = some (go j (k w.next) ∷ [], new_frame w c)
  run_code w j (await t k) = await_task w j t (awaiting t k)
  run_code w j (await_void t c) = await_task w j t (awaiting_void t c)
  run_code w j (start_subroutine t c) = start_task w j t c
  run_code w j (spawn e t c) = do r ← spawn_task w e t; some (then_go j c r)
  run_code w j (cross e t k) = cross_task w j e (crossing k) (launch_child j t)
  run_code w j (cross_void e t c) = cross_task w j e (suspended c) (launch_child_void j t)
  run_code w j (suspend q k) = do
    me ← w.frames j
    some ([], record (set_state w j me (blocked q k)) { requests = w.requests ++ (j, q) ∷ [] })
  run_code w j (store_result t v c) = do
    p ← w.frames t
    w' ← store_cross w t p v p.state
    some (go j c ∷ [], w')
  run_code w j (respawn t c) = do
    p ← w.frames t
    e ← p.executor
    some (then_go j c (executor_spawn w e t))

  -- `job.handle.resume()`
  unfoldable pub enter_frame : World V → FrameId → Outcome V
  unfolding continue_from
  enter_frame w j = do me ← w.frames j; continue_from (set_state w j me running) j me.state

  -- `Resume(job)` once the coroutine has come back
  unfoldable pub resume_parent : Option FrameId → List (Action V)
  resume_parent none = []
  resume_parent (some t) = resume t ∷ []

  unfoldable pub settle_frame : World V → FrameId → Outcome V
  unfolding resume_parent
  settle_frame w j = do
    me ← w.frames j
    some (
        if is_done me.state
        then (resume_parent me.parent, (if me.destroy_on_done then destroy w j else w))
        else ([], w))

  -- `return !cur.done()`: the parent goes on if the task is done, and else stays suspended
  unfoldable pub after_start : World V → FrameId → FrameId → Outcome V
  after_start w j t = do
    child ← w.frames t
    some ((if is_done child.state then enter j ∷ [] else []), w)

  unfoldable pub step : World V → Action V → Outcome V
  unfolding run_code enter_frame settle_frame after_start
  step w (resume j) = some (enter j ∷ settle j ∷ [], w)
  step w (enter j) = enter_frame w j
  step w (settle j) = settle_frame w j
  step w (go j c) = run_code w j c
  step w (returned j t) = after_start w j t

  -- Runs the stack for at most so many steps: what is left of the stack, and the world.
  unfoldable pub run : ℕ → List (Action V) → World V → Outcome V
  unfolding step
  run n [] w = some ([], w)
  run zero (a ∷ s) w = some (a ∷ s, w)
  run (suc n) (a ∷ s) w = elim (step w a) [ none ↦ none | some (todo, w') ↦ run n (todo ++ s) w' ]
