-- ===== src/Game/Character.antt =====
-- The character and the frames of game/main.cpp, with the service in memory. The tasks that a
-- character spawns wait in its executor until `PreUpdate`, where each runs to its end: the
-- coroutines of this service do not suspend.
pub mod Levels
pub mod Progress
pub mod Fights
use Prim.Native.String.{String}
use text.Mathlib.Text.{◌==◌ as str_eq}
use async_sandbox.Prelude.{
  ℕ, suc, ◌+◌, ◌-◌, ◌^◌, ℤ, pos, leb_ℤ, Bool, true, false, ◌&&◌, Option, none, some, List, [], ◌∷◌,
  ◌++◌, leb, ltb, if◌then◌else◌, ◌>>=◌,
}
use async_sandbox.Game.CharacterService
use async_sandbox.Game.CharacterService.{Player, new_player}

pub data State : Type 0 where
  uninit initializing idle fighting : State

-- `Init()`, `EarnXp()` and `Reincarnate()`
pub data Job : Type 0 where
  init earn_xp reincarnate : Job

pub record Character : Type 0 where
  pub state : State
  -- `m_timeSinceXp`, in nanoseconds
  pub time_since_xp : ℕ
  pub executor : List Job
  -- the player of the service
  pub player : Player

-- nanoseconds
abbrev pub second : ℕ
second = 10 ^ 9

abbrev pub is_idle : State → Bool
is_idle idle = true
is_idle _ = false

abbrev pub is_fighting : State → Bool
is_fighting fighting = true
is_fighting _ = false

abbrev pub spawn : Character → Job → Character
spawn c j = record c { executor = c.executor ++ j ∷ [] }

unfoldable pub process_input : Character → String → Character
process_input c input =
    if is_idle c.state && str_eq input "fight"
    then record c { state = fighting; time_since_xp = 0 }
    else if is_fighting c.state && str_eq input "rest"
    then record c { state = idle }
    else if is_idle c.state && str_eq input "reincarnate"
    then spawn c reincarnate
    else c

abbrev pub fight_on : Character → Character
fight_on c =
    if leb second c.time_since_xp
    then spawn (record c { time_since_xp = c.time_since_xp - second }) earn_xp
    else c

-- `+=` of nanoseconds, which are an int64_t. The clock is steady, so that none are negative.
abbrev pub add_ns : ℕ → ℕ → Option ℕ
add_ns t elapsed = if ltb (t + elapsed) (2 ^ 63) then some (t + elapsed) else none

abbrev pub update_in : State → Character → ℕ → Option Character
update_in uninit c elapsed = some (spawn (record c { state = initializing }) init)
update_in fighting c elapsed = do
  t ← add_ns c.time_since_xp elapsed
  some (fight_on (record c { time_since_xp = t }))
update_in initializing c elapsed = some c
update_in idle c elapsed = some c

-- `none` is an overflow of the time.
unfoldable pub update : Character → ℕ → Option Character
update c elapsed = update_in c.state c elapsed

-- A task of the character, run to its end; `none` is an overflow of the player's fields.
unfoldable pub run_job : Character → Job → Option Character
run_job c init = do
  (player, p) ← CharacterService.get_player c.player
  some (record c { state = idle; player = p })
run_job c earn_xp = do
  (new_xp, p) ← CharacterService.give_xp c.player (pos 100)
  if leb_ℤ (pos 1000) new_xp
      then (CharacterService.level_up p >>= λ r. some (record c { player = r.1 }))
      else some (record c { player = p })
run_job c reincarnate = do
  (done, p) ← CharacterService.reset c.player
  some (record c { player = p })

unfoldable pub run_jobs : Character → List Job → Option Character
unfolding run_job
run_jobs c [] = some c
run_jobs c (j ∷ js) = do c' ← run_job c j; run_jobs c' js

-- `PreUpdate`
unfoldable pub pre_update : Character → Option Character
unfolding run_jobs
pre_update c = run_jobs (record c { executor = [] }) c.executor

-- The end of a frame, behind `PreUpdate`.
abbrev pub end_frame : ℕ → Option Character → Option (Bool × Character)
end_frame elapsed o = do c ← o; c' ← update c elapsed; some (false, c')

-- A frame of `Game::Update` with one character: an input, if there is one, and the time since the
-- last frame. True means that the game is done.
unfoldable pub game_update : Character → Option String → ℕ → Option (Bool × Character)
unfolding process_input pre_update update
game_update c (some input) elapsed =
    if str_eq input "quit"
    then some (true, c)
    else (end_frame elapsed (pre_update (process_input c input)))
game_update c none elapsed = end_frame elapsed (pre_update c)

abbrev pub new_character : Character
new_character = record { state = uninit; time_since_xp = 0; executor = []; player = new_player }

-- `while (!game.IsDone()) { game.Update(); }`
unfoldable pub play : Character → List (Option String × ℕ) → Option Character
unfolding game_update
play c [] = some c
play c ((input, elapsed) ∷ frames) = do
  (done, c') ← game_update c input elapsed
  if done then some c' else play c' frames
