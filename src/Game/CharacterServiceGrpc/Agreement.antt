-- ===== src/Game/CharacterServiceGrpc/Agreement.antt =====
-- The service over a server (game/character_service_grpc.cpp) against the service in memory
-- (game/character_service_memory.cpp).
use async_sandbox.Prelude.{
  ℤ, pos, ◌+ℤ◌, ◌≡◌, refl, ap, sym, ◌∙◌, List, [], ◌∷◌, Option-cases, true, false, Option, none,
  some, arith, in_int64, inl, inr,
}
use mathlib.Core.Option.{some-injective}
use async_sandbox.AsyncGrpc.Status.{Status, is_ok}
use async_sandbox.AsyncGrpc.Unary.{failed}
use async_sandbox.AsyncGrpc.Retry.{Weather, is_unavailable}
use async_sandbox.Server.VariableService.Map.{
  Storage, insert_or_assign, erase, IsMap, insert-IsMap, erase-IsMap,
}
use async_sandbox.Game.CharacterService
use async_sandbox.Game.CharacterService.{Player, new_player}
use async_sandbox.Game.CharacterServiceGrpc.{◌>>=◌, get_player, give_xp, level_up, reset}
use async_sandbox.Game.CharacterServiceGrpc.Access.{IsClear, read_failed, write_clear}
use async_sandbox.Game.CharacterServiceGrpc.Clear.{
  player_of, get_player_clear, player_of-insert_xp, player_of-insert_level, give_xp_clear,
  level_up_clear, reset_clear, player_of-reset,
}

-- What a player can do.
pub data Operation : Type 0 where
  gives : ℤ → Operation
  levels : Operation
  resets : Operation

abbrev pub second : {A B : Type 0} → Option (A × B) → Option B
second none = none
second (some (a, b)) = some b

abbrev pub in_memory : Player → Operation → Option Player
in_memory p (gives n) = second (CharacterService.give_xp p n)
in_memory p levels = second (CharacterService.level_up p)
in_memory p resets = second (CharacterService.reset p)

abbrev pub on_server : Weather → Storage → Operation → Option Storage
on_server w s (gives n) = second (give_xp w w n s)
on_server w s levels = second (level_up w w w s)
on_server w s resets = second (reset w w s)

memory_gives :
    (q : Player) (n : ℤ) {p : Player}
    → in_memory q (gives n) ≡ some p
    → (in_int64 (q.xp +ℤ n) ≡ true) × (p ≡ record q { xp = q.xp +ℤ n })
unfolding CharacterService.give_xp
memory_gives q n e = ground arith

memory_levels :
    (q : Player) {p : Player}
    → in_memory q levels ≡ some p
    → (in_int64 (q.level +ℤ pos 1) ≡ true) × (p ≡ record { level = q.level +ℤ pos 1; xp = pos 0 })
unfolding CharacterService.level_up
memory_levels q e = ground arith

memory_resets : (q : Player) {p : Player} → in_memory q resets ≡ some p → p ≡ new_player
unfolding CharacterService.reset
memory_resets q e = ground arith

step_agrees :
    (w : Weather) (s : Storage) (o : Operation) {p : Player}
    → IsClear w
    → IsMap s
    → in_memory (player_of s) o ≡ some p
    → (s' : Storage) × (on_server w s o ≡ some s') × (player_of s' ≡ p) × IsMap s'
step_agrees w s (gives n) h m e =
    let (range, q) = memory_gives (player_of s) n e in
    let x = (player_of s).xp +ℤ n in
    (
      (insert_or_assign s "xp" x).0,
      ap second (give_xp_clear w w s n h h range),
      player_of-insert_xp s x ∙ sym q,
      insert-IsMap s "xp" x m,
    )
step_agrees w s levels h m e =
    let (range, q) = memory_levels (player_of s) e in
    let x = (player_of s).level +ℤ pos 1 in
    let s₁ = (insert_or_assign s "level" x).0 in
    (
      (insert_or_assign s₁ "xp" (pos 0)).0,
      ap second (level_up_clear w w w s h h h range),
      player_of-insert_xp s₁ (pos 0)
          ∙ ap (λ (p : Player). record p { xp = pos 0 }) (player_of-insert_level s x)
          ∙ sym q,
      insert-IsMap s₁ "xp" (pos 0) (insert-IsMap s "level" x m),
    )
step_agrees w s resets h m e = (
  (erase (erase s "level").0 "xp").0,
  ap second (reset_clear w w s h h),
  player_of-reset s m ∙ sym (memory_resets (player_of s) e),
  erase-IsMap (erase s "level").0 "xp" (erase-IsMap s "level" m),
)

abbrev pub all_in_memory : Player → List Operation → Option Player
all_in_memory p [] = some p
all_in_memory p (o ∷ os) = elim (in_memory p o) [ none ↦ none | some q ↦ all_in_memory q os ]

abbrev pub all_on_server : Weather → Storage → List Operation → Option Storage
all_on_server w s [] = some s
all_on_server w s (o ∷ os) = elim (on_server w s o) [ none ↦ none | some t ↦ all_on_server w t os ]

first_then :
    (p : Player) (o : Operation) (os : List Operation) {q : Player}
    → all_in_memory p (o ∷ os) ≡ some q
    → (p₁ : Player) × (in_memory p o ≡ some p₁) × (all_in_memory p₁ os ≡ some q)
first_then p o os h = elim (Option-cases (in_memory p o)) [
  | inl e ↦ cc (rw (e, all_in_memory) at h)
  | inr (p₁, e) ↦ (p₁, e, rw (e, all_in_memory) at h)
]

-- As long as the first call of each access gets through, on a storage with no key twice, a
-- history of operations that does not overflow in memory leaves on the server the same player,
-- as `GetPlayer` shows it.
pub get_player-all_on_server :
    (w : Weather) (s : Storage) (os : List Operation) (p : Player)
    → IsClear w
    → IsMap s
    → all_in_memory (player_of s) os ≡ some p
    → (s' : Storage) × (all_on_server w s os ≡ some s') × (get_player w w s' ≡ some (p, s'))
get_player-all_on_server w s [] p h m e =
    (s, refl, get_player_clear w w s h h ∙ ap (λ q. some (q, s)) (some-injective _ _ e))
get_player-all_on_server w s (o ∷ os) p h m e =
    let (p₁, e₁, rest) = first_then (player_of s) o os e in
    let (s₁, f₁, q, m₁) = step_agrees w s o h m e₁ in
    let (s', f, g) = get_player-all_on_server w s₁ os p h m₁ (rw (← q) at rest) in
    (s', rw (f₁, all_on_server) f, g)

-- If the first calls get through, and `GiveXp` does not overflow in memory, then over the
-- server it leaves the same player, but what it returns is the amount before: the service in
-- memory returns the sum of it and of what is given.
pub give_xp_returns_old :
    (w₁ w₂ : Weather) (s : Storage) (ammount x : ℤ) (p : Player)
    → IsClear w₁
    → IsClear w₂
    → CharacterService.give_xp (player_of s) ammount ≡ some (x, p)
    → (old : ℤ) × (s' : Storage) × (give_xp w₁ w₂ ammount s ≡ some (old, s'))
      × (player_of s' ≡ p)
      × (old ≡ (player_of s).xp)
      × (x ≡ old +ℤ ammount)
unfolding CharacterService.give_xp
give_xp_returns_old w₁ w₂ s ammount x p h₁ h₂ e =
    let (range, q) = memory_gives (player_of s) ammount (ap second e) in
    let y = (player_of s).xp +ℤ ammount in
    (
      (player_of s).xp,
      (insert_or_assign s "xp" y).0,
      give_xp_clear w₁ w₂ s ammount h₁ h₂ range,
      player_of-insert_xp s y ∙ sym q,
      refl,
      ground arith,
    )

-- If the read fails without reaching the server, with a status that is not OK and not UNAVAILABLE (the
-- call was cancelled, say, or its deadline passed), the write gets through and the amount fits, `GiveXp`
-- returns 0 and all experience points but the new ones are lost, however many there were.
pub give_xp_loses :
    (w₁ w₂ : Weather) (s : Storage) (ammount : ℤ) (st : Status)
    → w₁.delivery 0 ≡ failed st
    → is_ok st ≡ false
    → is_unavailable st.error_code ≡ false
    → IsClear w₂
    → in_int64 (pos 0 +ℤ ammount) ≡ true
    → (s' : Storage) × (give_xp w₁ w₂ ammount s ≡ some (pos 0, s'))
      × (player_of s' ≡ record (player_of s) { xp = pos 0 +ℤ ammount })
unfolding give_xp
give_xp_loses w₁ w₂ s ammount st h₁ n u h₂ e =
    let (x, reads, nothing_read) = read_failed w₁ "xp" s st h₁ n u in
    (
      (insert_or_assign s "xp" (pos 0 +ℤ ammount)).0,
      rw (◌>>=◌, reads, nothing_read, e)
          (rw (◌>>=◌, write_clear w₂ "xp" (pos 0 +ℤ ammount) s h₂) (rw nothing_read refl)),
      player_of-insert_xp s (pos 0 +ℤ ammount),
    )
