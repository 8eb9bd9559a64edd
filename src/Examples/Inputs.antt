-- ===== src/Examples/Inputs.antt =====
-- The input thread of the game (game/main.cpp) in concrete interleavings.
use async_sandbox.Prelude.{◌≡◌, ◌≢◌, refl, true, false, none, some, List, [], ◌∷◌}
use async_sandbox.Game.InputHandler.{
  before_wait, waiting, testing, terminated, notifying, polling, InputHandler, new_input_handler,
  thread_step, game_step, Event, of_thread, of_game, spurious_wakeup, handle, run,
}
use async_sandbox.Game.InputHandler.Interleavings.{set_value_once, lost_notification}

-- The thread says that it is ready, and does not wait yet; the game has a new promise.
abbrev too_early : List Event
too_early = of_thread "" ∷ of_thread "" ∷ of_game ∷ of_game ∷ []

abbrev early : InputHandler
early = record { ready = true; stop = false; input = none; thread = before_wait; game = notifying }

too_early_runs : run new_input_handler too_early ≡ some early
unfolding run handle thread_step game_step
too_early_runs = refl

abbrev deaf : InputHandler
deaf = record { ready = true; stop = false; input = none; thread = waiting; game = polling }

abbrev afterwards : List Event
afterwards = of_thread "fight" ∷ of_game ∷ []

deaf_runs : run early (of_game ∷ afterwards) ≡ some deaf
unfolding run handle thread_step game_step
deaf_runs = refl

lost_notification_example : (deaf.game ≡ polling) × (deaf.input ≡ none)
lost_notification_example = lost_notification early deaf afterwards refl refl refl tt tt deaf_runs

-- The thread waits first, and the game gets its line.
abbrev in_time : List Event
in_time =
    of_thread ""
    ∷ of_thread ""
    ∷ of_thread ""
    ∷ of_game
    ∷ of_game
    ∷ of_game
    ∷ of_thread ""
    ∷ of_thread "fight"
    ∷ of_thread ""
    ∷ []

abbrev answered : InputHandler
answered = record {
  ready = true;
  stop = false;
  input = some "fight";
  thread = testing;
  game = polling;
}

in_time_runs : run new_input_handler in_time ≡ some answered
unfolding run handle thread_step game_step
in_time_runs = refl

set_value_once_example : answered.thread ≢ terminated
set_value_once_example = set_value_once in_time answered tt in_time_runs

-- A wait that returns without a notification, before the game asks again: `set_value` throws.
spurious_runs :
    run answered (
      of_thread ""
      ∷ of_thread ""
      ∷ of_thread ""
      ∷ spurious_wakeup
      ∷ of_thread ""
      ∷ of_thread "rest"
      ∷ of_thread ""
      ∷ [])
    ≡ some (record answered { thread = terminated })
unfolding run handle thread_step game_step
spurious_runs = refl
