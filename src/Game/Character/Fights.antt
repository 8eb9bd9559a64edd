-- ===== src/Game/Character/Fights.antt =====
-- What fighting earns over the frames of game/main.cpp, with the service in memory.
use Prim.Native.String.{String}
use native.Mathlib.Decide.{dec_lt}
use async_sandbox.Prelude.{
  ℕ, zero, suc, ◌+◌, ◌*◌, ◌-◌, ◌^◌, ◌≤◌, ◌<◌, ◌≡◌, refl, pos, ◌+ℤ◌, false, Option, none, some, List,
  [], ◌∷◌, ◌>>=◌, arith, length,
}
use async_sandbox.Game.CharacterService
use async_sandbox.Game.Character.{
  fighting, Job, earn_xp, Character, second, update, run_job, run_jobs, pre_update, game_update,
  play,
}

-- A character that fights, with hundreds of experience points.
abbrev pub fighter : ℕ → ℕ → ℕ → List Job → Character
fighter level hundreds time jobs = record {
  state = fighting;
  time_since_xp = time;
  executor = jobs;
  player = record { level = pos level; xp = pos (100 * hundreds) };
}

-- One gain that waits, or none.
abbrev pub gains : ℕ → List Job
gains zero = []
gains (suc k) = earn_xp ∷ []

earn_more :
    (l m t : ℕ) (js : List Job)
    → m + 1 < 10
    → run_job (fighter l m t js) earn_xp ≡ some (fighter l (m + 1) t js)
unfolding run_job CharacterService.give_xp ◌+ℤ◌
earn_more l m t js h = ground arith

earn_level :
    (l t : ℕ) (js : List Job)
    → l + 1 < 2 ^ 63
    → run_job (fighter l 9 t js) earn_xp ≡ some (fighter (l + 1) 0 t js)
unfolding run_job CharacterService.give_xp CharacterService.level_up ◌+ℤ◌
earn_level l t js h = ground arith

earn :
    (l m t : ℕ) (js : List Job)
    → m < 10
    → l + 1 < 2 ^ 63
    → (l' : ℕ) × (m' : ℕ) × (run_job (fighter l m t js) earn_xp ≡ some (fighter l' m' t js))
      × (10 * l' + m' ≡ 10 * l + m + 1)
      × (m' < 10)
      × (l' ≤ l + 1)
earn l m t js h r = elim (dec_lt (m + 1) 10) [
  | yes s ↦ (l, m + 1, earn_more l m t js s, omega arith, s, omega arith)
  | no s ↦
      let nine : m ≡ 9 = omega arith in
      (l + 1, 0, rw nine (earn_level l t js r), omega arith, omega arith, omega arith)
]

-- The jobs at the beginning of a frame.
start_frame :
    (l m t k : ℕ)
    → m < 10
    → k ≤ 1
    → l + 1 < 2 ^ 63
    → (l' : ℕ) × (m' : ℕ) × (pre_update (fighter l m t (gains k)) ≡ some (fighter l' m' t []))
      × (10 * l' + m' ≡ 10 * l + m + k)
      × (m' < 10)
      × (l' ≤ l + 1)
unfolding pre_update run_jobs
start_frame l m t zero h b r = (l, m, refl, omega arith, h, omega arith)
start_frame l m t (suc k) h b r =
    let (l', m', e, s, h', r') = earn l m t [] h r in (l', m', rw (e, ◌>>=◌), omega arith, h', r')

behind_jobs :
    (l m t elapsed : ℕ)
    → t + elapsed < 2 ^ 63
    → (t' : ℕ) × (k : ℕ) × (update (fighter l m t []) elapsed ≡ some (fighter l m t' (gains k)))
      × (second * k + t' ≡ t + elapsed)
      × (k ≤ 1)
unfolding update
behind_jobs l m t elapsed r = elim (dec_lt (t + elapsed) second) [
  | yes s ↦ (t + elapsed, 0, ground arith, omega arith, omega arith)
  | no s ↦ (t + elapsed - second, 1, ground arith, omega arith, omega arith)
]

-- What a fighter has and is to have, in the time that it takes to earn.
abbrev pub worth : ℕ → ℕ → ℕ → ℕ → ℕ
worth l m t k = second * (10 * l + m + k) + t

frame :
    (l m t k elapsed : ℕ)
    → m < 10
    → k ≤ 1
    → l + 1 < 2 ^ 63
    → t + elapsed < 2 ^ 63
    → (l' : ℕ) × (m' : ℕ) × (t' : ℕ) × (k' : ℕ) × (game_update
          (fighter l m t (gains k))
          none
          elapsed
        ≡ some (false, fighter l' m' t' (gains k')))
      × (worth l' m' t' k' ≡ worth l m t k + elapsed)
      × (m' < 10)
      × (k' ≤ 1)
      × (l' ≤ l + 1)
      × (t' ≤ t + elapsed)
unfolding game_update
frame l m t k elapsed h b r time =
    let (l', m', e, s, h', r') = start_frame l m t k h b r in
    let (t', k', f, s', b') = behind_jobs l' m' t elapsed time in
    (l', m', t', k', rw (e, ◌>>=◌, f), omega arith, h', b', r', omega arith)

abbrev pub sum : List ℕ → ℕ
sum [] = 0
sum (n ∷ ns) = n + sum ns

abbrev pub quiet : List ℕ → List (Option String × ℕ)
quiet [] = []
quiet (elapsed ∷ rest) = (none, elapsed) ∷ quiet rest

-- With fewer than a thousand points in hundreds and at most one gain that waits, fighting through
-- frames without inputs runs, as long as the level has room and the time since the last gain and that
-- of the frames are together less than 2^63 nanoseconds, and loses no time: the
-- levels and points gained, the gain that may wait and the time since the last gain are together what
-- they were and the time that passed, where a second is worth a hundred points and a level a thousand.
pub play-worth :
    (es : List ℕ) (l m t k : ℕ)
    → m < 10
    → k ≤ 1
    → l + length es < 2 ^ 63
    → t + sum es < 2 ^ 63
    → (l' : ℕ) × (m' : ℕ) × (t' : ℕ) × (k' : ℕ) × (play (fighter l m t (gains k)) (quiet es)
        ≡ some (fighter l' m' t' (gains k')))
      × (worth l' m' t' k' ≡ worth l m t k + sum es)
      × (m' < 10)
unfolding play
play-worth [] l m t k h b r time = (l, m, t, k, refl, omega arith, h)
play-worth (e ∷ es) l m t k h b r time =
    let (l₁, m₁, t₁, k₁, f, s, h₁, b₁, r₁, u₁) =
      frame l m t k e h b (omega arith) (omega (arith, time)) in
    let (l', m', t', k', g, s', h') =
      play-worth es l₁ m₁ t₁ k₁ h₁ b₁ (omega arith) (omega (arith, time, u₁)) in
    (l', m', t', k', rw (f, ◌>>=◌) g, omega arith, h')
