-- ===== src/Game/Character/Levels.antt =====
-- The player's numbers over the frames of game/main.cpp, with the service in memory.
use Prim.Native.String.{String}
use text.Mathlib.Text.{◌==◌ as str_eq}
use async_sandbox.Prelude.{
  ℕ, suc, ◌+◌, ◌-◌, ◌*◌, ◌^◌, ◌≤◌, ◌<◌, ◌≡◌, refl, pos, pos_part, neg_part, ◌+ℤ◌, Bool, true, false,
  Option, none, some, List, [], ◌∷◌, arith, ◌∙◌, ap, Bool-cases, inl, inr, leb_ℤ, ltb, length,
  length-append, ◌>>=◌,
}
use async_sandbox.Game.CharacterService
use async_sandbox.Game.CharacterService.{Player, new_player}
use async_sandbox.Game.Character.{
  State, uninit, initializing, idle, fighting, fight_on, update_in, end_frame, Job, init, earn_xp,
  reincarnate, Character, process_input, update, run_job, run_jobs, pre_update, game_update,
  new_character, play,
}

-- Less than 1000 experience points, and a level that can rise so many times more.
pub record HasRoom (p : Player) (n : ℕ) : Type 0 where
  pub xp_nonneg : neg_part p.xp ≡ 0
  pub xp_small : pos_part p.xp < 1000
  pub level_nonneg : neg_part p.level ≡ 0
  pub level_small : pos_part p.level + n < 2 ^ 63

room_less : {p : Player} (n m : ℕ) → HasRoom p n → m ≤ n → HasRoom p m
room_less n m h le = record {
  xp_nonneg = h.xp_nonneg;
  xp_small = h.xp_small;
  level_nonneg = h.level_nonneg;
  level_small = omega (arith, h.level_small);
}

give_xp_fits :
    (p : Player) (n : ℕ)
    → HasRoom p n
    → CharacterService.give_xp p (pos 100)
      ≡ some (pos (pos_part p.xp + 100), record p { xp = pos (pos_part p.xp + 100) })
unfolding CharacterService.give_xp ◌+ℤ◌
give_xp_fits p n h = ground arith

level_up_fits :
    (p : Player) (n : ℕ)
    → neg_part p.level ≡ 0
    → pos_part p.level + suc n < 2 ^ 63
    → CharacterService.level_up p
      ≡ some (pos (pos_part p.level + 1), record { level = pos (pos_part p.level + 1); xp = pos 0 })
unfolding CharacterService.level_up ◌+ℤ◌
level_up_fits p n h l = ground arith

abbrev RunsTo : Option Character → ℕ → List Job → ℕ → Type 0
RunsTo o n js t =
    (c : Character) × (o ≡ some c) × HasRoom c.player n × (c.executor ≡ js) × (c.time_since_xp ≡ t)

earn_xp_fits :
    (c : Character) (n : ℕ)
    → HasRoom c.player (suc n)
    → RunsTo (run_job c earn_xp) n c.executor c.time_since_xp
unfolding run_job
earn_xp_fits c n h = elim (Bool-cases (leb_ℤ (pos 1000) (pos x))) [
  | inl up ↦ (
    record c { player = record { level = pos (pos_part c.player.level + 1); xp = pos 0 } },
    rw (◌>>=◌, give_xp_fits c.player (suc n) h, up)
        (rw (◌>>=◌, level_up_fits (record c.player { xp = pos x }) n h.level_nonneg h.level_small)),
    record {
      xp_nonneg = refl;
      xp_small = omega arith;
      level_nonneg = refl;
      level_small = omega (arith, h.level_small);
    },
    refl,
    refl,
  )
  | inr down ↦ (
    record c { player = record c.player { xp = pos x } },
    rw (◌>>=◌, give_xp_fits c.player (suc n) h, down),
    record {
      xp_nonneg = refl;
      xp_small = ground arith;
      level_nonneg = h.level_nonneg;
      level_small = omega (arith, h.level_small);
    },
    refl,
    refl,
  )
]
  where
    x : ℕ
    x = pos_part c.player.xp + 100

run_job_fits :
    (c : Character) (j : Job) (n : ℕ)
    → HasRoom c.player (suc n)
    → RunsTo (run_job c j) n c.executor c.time_since_xp
unfolding run_job CharacterService.get_player CharacterService.reset
run_job_fits c init n h =
    (record c { state = idle }, refl, room_less (suc n) n h (omega arith), refl, refl)
run_job_fits c earn_xp n h = earn_xp_fits c n h
run_job_fits c reincarnate n h = (
  record c { player = new_player },
  refl,
  record {
    xp_nonneg = refl;
    xp_small = omega arith;
    level_nonneg = refl;
    level_small = omega (arith, h.level_small);
  },
  refl,
  refl,
)

run_jobs_fits :
    (js : List Job) (c : Character) (n : ℕ)
    → HasRoom c.player (n + length js)
    → RunsTo (run_jobs c js) n c.executor c.time_since_xp
unfolding run_jobs
run_jobs_fits [] c n h = (c, refl, room_less (n + 0) n h (omega arith), refl, refl)
run_jobs_fits (j ∷ js) c n h =
    let (c₁, e₁, h₁, x₁, t₁) =
      run_job_fits c j (n + length js)
        (room_less (n + suc (length js)) (suc (n + length js)) h (omega arith)) in
    let (c₂, e₂, h₂, x₂, t₂) = run_jobs_fits js c₁ n h₁ in
    (c₂, rw (◌>>=◌, e₁) e₂, h₂, x₂ ∙ x₁, t₂ ∙ t₁)

process_input_adds :
    (c : Character) (input : String)
    → (length (process_input c input).executor ≤ length c.executor + 1)
      × ((process_input c input).player ≡ c.player)
      × ((process_input c input).time_since_xp ≤ c.time_since_xp)
unfolding process_input
process_input_adds c input = ground (arith, length-append c.executor (reincarnate ∷ []))

-- What an update adds, if the time has room.
abbrev Updated : Character → ℕ → Option Character → Type 0
Updated c elapsed o =
    (c' : Character) × (o ≡ some c')
    × (length c'.executor ≤ length c.executor + 1)
    × (c'.player ≡ c.player)
    × (c'.time_since_xp ≤ c.time_since_xp + elapsed)

fight_on_adds :
    (c : Character)
    → (length (fight_on c).executor ≤ length c.executor + 1)
      × ((fight_on c).player ≡ c.player)
      × ((fight_on c).time_since_xp ≤ c.time_since_xp)
fight_on_adds c = ground (arith, length-append c.executor (earn_xp ∷ []))

update_adds :
    (s : State) (c : Character) (elapsed : ℕ)
    → c.time_since_xp + elapsed < 2 ^ 63
    → Updated c elapsed (update_in s c elapsed)
update_adds uninit c elapsed l =
    (_, refl, omega (arith, length-append c.executor (init ∷ [])), refl, omega arith)
update_adds initializing c elapsed l = (c, refl, omega arith, refl, omega arith)
update_adds idle c elapsed l = (c, refl, omega arith, refl, omega arith)
update_adds fighting c elapsed l =
    let (a, b, d) = fight_on_adds (record c { time_since_xp = c.time_since_xp + elapsed }) in
    let room : ltb (c.time_since_xp + elapsed) (2 ^ 63) ≡ true = ground (arith, l) in
    (
      fight_on (record c { time_since_xp = c.time_since_xp + elapsed }),
      rw (room, ◌>>=◌) refl,
      a,
      b,
      d,
    )

pre_update_fits :
    (c : Character) (n : ℕ)
    → HasRoom c.player (n + length c.executor)
    → RunsTo (pre_update c) n [] c.time_since_xp
unfolding pre_update
pre_update_fits c n h = run_jobs_fits c.executor (record c { executor = [] }) n h

-- The rest of a frame behind its input.
rest_of_frame :
    (c : Character) (elapsed n : ℕ)
    → length c.executor ≤ 2
    → HasRoom c.player (n + 2)
    → c.time_since_xp + elapsed < 2 ^ 63
    → (c' : Character) × (end_frame elapsed (pre_update c) ≡ some (false, c'))
      × (length c'.executor ≤ 1)
      × HasRoom c'.player n
      × (c'.time_since_xp ≤ c.time_since_xp + elapsed)
unfolding update
rest_of_frame c elapsed n l h t =
    let (c₁, e, room, empty, same_time) =
      pre_update_fits c n (room_less (n + 2) (n + length c.executor) h (omega arith)) in
    let (c₂, f, fits, same, time) = update_adds c₁.state c₁ elapsed (omega (arith, same_time)) in
    (
      c₂,
      rw (e, ◌>>=◌) (rw (update, f)),
      omega (arith, fits, ap length empty),
      rw same room,
      omega (arith, time, same_time),
    )

frame_fits :
    (c : Character) (input : Option String) (elapsed n : ℕ)
    → length c.executor ≤ 1
    → HasRoom c.player (n + 2)
    → c.time_since_xp + elapsed < 2 ^ 63
    → (done : Bool) × (c' : Character) × (game_update c input elapsed ≡ some (done, c'))
      × (length c'.executor ≤ 1)
      × HasRoom c'.player n
      × (c'.time_since_xp ≤ c.time_since_xp + elapsed)
unfolding game_update
frame_fits c none elapsed n l h t =
    let (c', e, l', h', t') = rest_of_frame c elapsed n (omega arith) h t in
    (false, c', e, l', h', t')
frame_fits c (some input) elapsed n l h t = elim (Bool-cases (str_eq input "quit")) [
  | inl quit ↦
      (true, c, rw (quit, game_update), l, room_less (n + 2) n h (omega arith), omega arith)
  | inr on ↦
      let (adds, same, time) = process_input_adds c input in
      let (c', e, l', h', t') =
        rest_of_frame (process_input c input) elapsed n (omega (arith, adds)) (rw same h)
          (omega (arith, time, t)) in
      (false, c', rw (on, game_update) e, l', h', omega (arith, t', time))
]

-- The time that the frames take together.
abbrev pub elapsed_in : List (Option String × ℕ) → ℕ
elapsed_in [] = 0
elapsed_in ((input, elapsed) ∷ fs) = elapsed + elapsed_in fs

play_fits :
    (fs : List (Option String × ℕ)) (c : Character) (n : ℕ)
    → length c.executor ≤ 1
    → HasRoom c.player (n + 2 * length fs)
    → c.time_since_xp + elapsed_in fs < 2 ^ 63
    → (c' : Character) × (play c fs ≡ some c') × HasRoom c'.player n
unfolding play
play_fits [] c n l h t = (c, refl, room_less (n + 2 * 0) n h (omega arith))
play_fits ((input, elapsed) ∷ fs) c n l h t =
    let (done, c₁, e, l₁, h₁, t₁) =
      frame_fits c input elapsed (n + 2 * length fs) l
        (room_less (n + 2 * suc (length fs)) (n + 2 * length fs + 2) h (omega arith))
        (omega (arith, t)) in
    elim (Bool-cases done) [
      | inl over ↦ (c₁, rw (e, ◌>>=◌, over), room_less (n + 2 * length fs) n h₁ (omega arith))
      | inr on ↦
          let (c₂, e₂, h₂) = play_fits fs c₁ n l₁ h₁ (omega (arith, t, t₁)) in
          (c₂, rw (e, ◌>>=◌, on) e₂, h₂)
    ]

-- Whatever the inputs of fewer than 2^62 - 1 frames, which together take less than 2^63 nanoseconds, no
-- field of the player and no time overflows, and in the end the level is not negative and the
-- experience points are from 0 to 999.
pub play-HasRoom :
    (fs : List (Option String × ℕ))
    → length fs < 2 ^ 62 - 1
    → elapsed_in fs < 2 ^ 63
    → (c : Character) × (play new_character fs ≡ some c) × HasRoom c.player 0
play-HasRoom fs l t =
    play_fits fs new_character 0 (omega arith)
      (record {
        xp_nonneg = refl;
        xp_small = omega arith;
        level_nonneg = refl;
        level_small = omega arith;
      })
      (omega (arith, t))
