-- ===== src/Game/InputHandler.antt =====
-- `InputHandler` of game/main.cpp: the game's thread and the thread that reads the console, which run
-- in any interleaving of the steps below. A step that is not possible is `none`.
pub mod Promises
pub mod Interleavings
use Prim.Native.String.{String}
use text.Mathlib.Text.{◌==◌ as str_eq}
use async_sandbox.Prelude.{
  Bool, true, false, Option, none, some, List, [], ◌∷◌, ◌>>=◌, if◌then◌else◌,
}

-- Where `LaunchThread` stands: at the test of its loop, before `m_ready = true`, before it waits, in
-- `m_cv.wait`, behind it, before `std::getline`, before `set_value`, at its end, or in
-- `std::terminate`, since `set_value` has thrown.
pub data ThreadAt : Type 0 where
  testing announcing before_wait waiting woken reading : ThreadAt
  fulfilling : String → ThreadAt
  returned terminated : ThreadAt

-- Where the game stands: in the loop of the constructor, in the two steps of `GetString`, between two
-- frames, in the two steps of the destructor, or in the join of the thread.
pub data GameAt : Type 0 where
  spinning renewing notifying polling stopping notifying_stop joining finished : GameAt

pub record InputHandler : Type 0 where
  pub ready : Bool
  pub stop : Bool
  -- what `m_promise` holds
  pub input : Option String
  pub thread : ThreadAt
  pub game : GameAt

abbrev pub new_input_handler : InputHandler
new_input_handler = record {
  ready = false;
  stop = false;
  input = none;
  thread = testing;
  game = spinning;
}

-- `set_value` throws if the promise holds a value.
abbrev pub set_value : InputHandler → Option String → String → InputHandler
set_value s none line = record s { input = some line; thread = testing }
set_value s (some old) line = record s { thread = terminated }

-- A step of the thread at a position, with the line that it would read.
unfoldable pub thread_step : InputHandler → String → ThreadAt → Option InputHandler
thread_step s line testing = some (record s { thread = if s.stop then returned else announcing })
thread_step s line announcing = some (record s { ready = true; thread = before_wait })
thread_step s line before_wait = some (record s { thread = waiting })
thread_step s line waiting = none
thread_step s line woken = some (record s { thread = if s.stop then testing else reading })
thread_step s line reading = some (record s { thread = fulfilling line })
thread_step s line (fulfilling l) = some (set_value s s.input l)
thread_step s line returned = none
thread_step s line terminated = none

-- `m_cv.notify_one()`, which a thread that does not wait yet misses
abbrev pub notified : ThreadAt → ThreadAt
notified waiting = woken
notified t = t

-- What the game does in a frame with the input, if there is any.
abbrev pub polled : Option String → GameAt
polled none = polling
polled (some line) = if str_eq line "quit" then stopping else renewing

abbrev pub joined : ThreadAt → Option GameAt
joined returned = some finished
joined _ = none

unfoldable pub game_step : InputHandler → GameAt → Option InputHandler
game_step s spinning = some (record s { game = if s.ready then renewing else spinning })
game_step s renewing = some (record s { input = none; game = notifying })
game_step s notifying = some (record s { thread = notified s.thread; game = polling })
game_step s polling = some (record s { game = polled s.input })
game_step s stopping = some (record s { stop = true; game = notifying_stop })
game_step s notifying_stop = some (record s { thread = notified s.thread; game = joining })
game_step s joining = do g ← joined s.thread; some (record s { game = g })
game_step s finished = none

-- A step of the thread, with the line on the console, or of the game. `m_cv.wait` may also return
-- without a notification.
pub data Event : Type 0 where
  of_thread : String → Event
  of_game : Event
  spurious_wakeup : Event

unfoldable pub handle : InputHandler → Event → Option InputHandler
unfolding thread_step game_step
handle s (of_thread line) = thread_step s line s.thread
handle s of_game = game_step s s.game
handle s spurious_wakeup = some (record s { thread = notified s.thread })

unfoldable pub run : InputHandler → List Event → Option InputHandler
unfolding handle
run s [] = some s
run s (e ∷ es) = do s₁ ← handle s e; run s₁ es
