-- ===== src/Game/CharacterServiceGrpc/Clear.antt =====
-- The operations of game/character_service_grpc.cpp when the first call of each access gets through.
use async_sandbox.Prelude.{ℤ, pos, ◌+ℤ◌, ◌≡◌, true, some, arith, add64, in_int64}
use async_sandbox.AsyncGrpc.Retry.{Weather}
use async_sandbox.Server.VariableService.Map.{
  Storage, find, insert_or_assign, erase, IsMap, find-insert, find-erase, erase-IsMap,
}
use async_sandbox.Game.CharacterService.{Player, new_player}
use async_sandbox.Game.CharacterServiceGrpc.{◌>>=◌, value_or', get_player, give_xp, level_up, reset}
use async_sandbox.Game.CharacterServiceGrpc.Access.{IsClear, read_clear, write_clear, del_clear}

-- The player that the server's variables stand for.
abbrev pub player_of : Storage → Player
player_of s = record {
  level = value_or' (find s "level") (pos 1);
  xp = value_or' (find s "xp") (pos 0);
}

pub get_player_clear :
    (w₁ w₂ : Weather) (s : Storage)
    → IsClear w₁
    → IsClear w₂
    → get_player w₁ w₂ s ≡ some (player_of s, s)
unfolding get_player
get_player_clear w₁ w₂ s h₁ h₂ = rw (◌>>=◌, read_clear w₁ "level" s h₁, read_clear w₂ "xp" s h₂)

pub player_of-insert_xp :
    (s : Storage) (v : ℤ)
    → player_of (insert_or_assign s "xp" v).0 ≡ record (player_of s) { xp = v }
player_of-insert_xp s v = rw (find-insert s "xp" "level" v, find-insert s "xp" "xp" v)

pub player_of-insert_level :
    (s : Storage) (v : ℤ)
    → player_of (insert_or_assign s "level" v).0 ≡ record (player_of s) { level = v }
player_of-insert_level s v = rw (find-insert s "level" "level" v, find-insert s "level" "xp" v)

pub give_xp_clear :
    (w₁ w₂ : Weather) (s : Storage) (ammount : ℤ)
    → IsClear w₁
    → IsClear w₂
    → in_int64 ((player_of s).xp +ℤ ammount) ≡ true
    → give_xp w₁ w₂ ammount s
      ≡ some ((player_of s).xp, (insert_or_assign s "xp" ((player_of s).xp +ℤ ammount)).0)
unfolding give_xp
give_xp_clear w₁ w₂ s ammount h₁ h₂ e =
    rw (◌>>=◌, read_clear w₁ "xp" s h₁, e)
      (rw (◌>>=◌, write_clear w₂ "xp" ((player_of s).xp +ℤ ammount) s h₂))

pub level_up_clear :
    (w₁ w₂ w₃ : Weather) (s : Storage)
    → IsClear w₁
    → IsClear w₂
    → IsClear w₃
    → in_int64 ((player_of s).level +ℤ pos 1) ≡ true
    → level_up w₁ w₂ w₃ s
      ≡ some (
        (player_of s).level,
        (insert_or_assign
            (insert_or_assign s "level" ((player_of s).level +ℤ pos 1)).0
            "xp"
            (pos 0)).0,
      )
unfolding level_up
level_up_clear w₁ w₂ w₃ s h₁ h₂ h₃ e =
    rw (◌>>=◌, read_clear w₁ "level" s h₁, e)
      (rw (◌>>=◌, write_clear w₂ "level" ((player_of s).level +ℤ pos 1) s h₂)
        (rw (◌>>=◌, write_clear w₃ "xp" (pos 0) _ h₃)))

pub reset_clear :
    (w₁ w₂ : Weather) (s : Storage)
    → IsClear w₁
    → IsClear w₂
    → reset w₁ w₂ s ≡ some (tt, (erase (erase s "level").0 "xp").0)
unfolding reset
reset_clear w₁ w₂ s h₁ h₂ =
    rw (◌>>=◌, del_clear w₁ "level" s h₁) (rw (◌>>=◌, del_clear w₂ "xp" _ h₂))

pub player_of-reset :
    (s : Storage) → IsMap s → player_of (erase (erase s "level").0 "xp").0 ≡ new_player
player_of-reset s m =
    let m' = erase-IsMap s "level" m in
    rw (
      find-erase (erase s "level").0 "xp" "level" m',
      find-erase (erase s "level").0 "xp" "xp" m',
      find-erase s "level" "level" m,
    )

pub add64_lem : (a b : ℤ) {c : ℤ} → add64 a b ≡ some c → (in_int64 (a +ℤ b) ≡ true) × (c ≡ a +ℤ b)
add64_lem a b h = ground arith
