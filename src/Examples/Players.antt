-- ===== src/Examples/Players.antt =====
-- Players (game/character_service_grpc.cpp, game/main.cpp).
use Prim.Native.String.{String}
use async_sandbox.Prelude.{
  ℕ, ◌+◌, ◌<◌, ◌≡◌, refl, ℤ, pos, ◌+ℤ◌, true, Option, none, some, List, [], ◌∷◌, arith,
}
use async_sandbox.AsyncGrpc.Unary.{delivered, failed}
use async_sandbox.AsyncGrpc.Retry.{Weather}
use async_sandbox.Server.VariableService.Map.{Storage, find}
use async_sandbox.Game.CharacterService
use async_sandbox.Game.CharacterService.{Player}
use async_sandbox.Game.CharacterServiceGrpc.{get_player, give_xp, cancelled_status}
use async_sandbox.Game.CharacterServiceGrpc.Clear.{player_of}
use async_sandbox.Game.CharacterServiceGrpc.Agreement.{
  Operation, gives, levels, all_in_memory, all_on_server, get_player-all_on_server,
  give_xp_returns_old, give_xp_loses,
}
use async_sandbox.Game.Character.{idle, Character, new_character, play}
use async_sandbox.Game.Character.Levels.{HasRoom, play-HasRoom}
use async_sandbox.Game.Character.Progress.{Fits, play_new-Fits}
use async_sandbox.Game.Character.Fights.{fighter, gains, worth, sum, quiet, play-worth}

abbrev clear : Weather
clear = record { delivery = λ n. delivered; rings = λ n. true }

abbrev stormy : Weather
stormy = record { delivery = λ n. failed cancelled_status; rings = λ n. true }

abbrev storage : Storage
storage = ("xp", pos 900) ∷ []

abbrev operations : List Operation
operations = levels ∷ gives (pos 100) ∷ []

all_in_memory_runs :
    all_in_memory (player_of storage) operations ≡ some (record { level = pos 2; xp = pos 100 })
unfolding CharacterService.give_xp CharacterService.level_up ◌+ℤ◌ find
all_in_memory_runs = refl

get_player-all_on_server_example :
    (s' : Storage) × (all_on_server clear storage operations ≡ some s')
    × (get_player clear clear s' ≡ some (record { level = pos 2; xp = pos 100 }, s'))
get_player-all_on_server_example =
    get_player-all_on_server clear storage operations (record { level = pos 2; xp = pos 100 }) refl
      (tt, tt) all_in_memory_runs

give_xp_in_memory :
    CharacterService.give_xp (player_of storage) (pos 100)
    ≡ some (pos 1000, record { level = pos 1; xp = pos 1000 })
unfolding CharacterService.give_xp ◌+ℤ◌ find
give_xp_in_memory = refl

give_xp_returns_old_example :
    (old : ℤ) × (s' : Storage) × (give_xp clear clear (pos 100) storage ≡ some (old, s'))
    × (player_of s' ≡ record { level = pos 1; xp = pos 1000 })
    × (old ≡ pos 900)
    × (pos 1000 ≡ old +ℤ pos 100)
unfolding find
give_xp_returns_old_example =
    give_xp_returns_old clear clear storage (pos 100) (pos 1000)
      (record { level = pos 1; xp = pos 1000 }) refl refl give_xp_in_memory

give_xp_loses_example :
    (s' : Storage) × (give_xp stormy clear (pos 100) storage ≡ some (pos 0, s'))
    × (player_of s' ≡ record { level = pos 1; xp = pos 100 })
unfolding ◌+ℤ◌ find
give_xp_loses_example =
    give_xp_loses stormy clear storage (pos 100) cancelled_status refl refl refl refl refl

abbrev frames : List (Option String × ℕ)
frames = (none, 0) ∷ (none, 5) ∷ (some "fight", 999999999) ∷ (none, 1) ∷ (some "rest", 4) ∷ []

play-HasRoom_example : (c : Character) × (play new_character frames ≡ some c) × HasRoom c.player 0
play-HasRoom_example = play-HasRoom frames (omega arith) (omega arith)

-- A second of fighting gives its points in the frame after.
play_runs :
    (c : Character) × (play new_character frames ≡ some c)
    × (c.player ≡ record { level = pos 1; xp = pos 100 })
unfolding play CharacterService.get_player CharacterService.give_xp ◌+ℤ◌
play_runs = (
  record (new_character) { state = idle; player = record { level = pos 1; xp = pos 100 } },
  refl,
  refl,
)

play_new-Fits_example :
    (c : Character) × (play new_character frames ≡ some c) × Fits c.state c.executor
play_new-Fits_example = play_new-Fits frames (omega arith) (omega arith)

abbrev times : List ℕ
times = 999999999 ∷ 2 ∷ 2000000000 ∷ []

play-worth_example :
    (l : ℕ) × (m : ℕ) × (t : ℕ) × (k : ℕ) × (play (fighter 1 9 0 []) (quiet times)
      ≡ some (fighter l m t (gains k)))
    × (worth l m t k ≡ worth 1 9 0 0 + sum times)
    × (m < 10)
play-worth_example =
    play-worth times 1 9 0 0 (omega arith) (omega arith) (omega arith) (omega arith)
