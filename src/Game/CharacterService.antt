-- ===== src/Game/CharacterService.antt =====
-- game/character_service.hpp, and the service in memory of game/character_service_memory.hpp and .cpp.
-- The fields are `int64_t`: `none` is an overflow.
use async_sandbox.Prelude.{ℤ, pos, Option, some, ◌>>=◌, add64}

pub record Player : Type 0 where
  pub level : ℤ
  pub xp : ℤ

abbrev pub new_player : Player
new_player = record { level = pos 1; xp = pos 0 }

-- Each operation gives its result and the player that it leaves.
unfoldable pub get_player : Player → Option (Player × Player)
get_player p = some (p, p)

unfoldable pub give_xp : Player → ℤ → Option (ℤ × Player)
give_xp p ammount = do xp ← add64 p.xp ammount; some (xp, record p { xp = xp })

unfoldable pub level_up : Player → Option (ℤ × Player)
level_up p = do level ← add64 p.level (pos 1); some (level, record { level = level; xp = pos 0 })

unfoldable pub reset : Player → Option (Unit {0} × Player)
reset p = some (tt, new_player)
