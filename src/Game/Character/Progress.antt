-- ===== src/Game/Character/Progress.antt =====
-- The states of a character over the frames of game/main.cpp, with the service in memory.
use Prim.Native.String.{String}
use text.Mathlib.Text.{◌==◌ as str_eq}
use async_sandbox.Prelude.{
  ℕ, ◌≡◌, refl, sym, subst, ◌∙◌, ◌<◌, ◌-◌, ◌^◌, length, Bool, true, false, Option, none, some, List,
  [], ◌∷◌, ◌++◌, ◌>>=◌, arith, Option-cases, Bool-cases, inl, inr,
}
use async_sandbox.Game.CharacterService
use async_sandbox.Game.Character.Levels.{elapsed_in, play-HasRoom}
use async_sandbox.Game.Character.{
  State, uninit, initializing, idle, fighting, Job, init, earn_xp, reincarnate, Character, fight_on,
  add_ns, update_in, end_frame, spawn, process_input, update, run_job, run_jobs, pre_update,
  game_update, new_character, play,
}

-- No `Init` among the jobs.
abbrev pub IsRoutine : List Job → Type 0
IsRoutine [] = Unit {0}
IsRoutine (init ∷ js) = ⊥
IsRoutine (earn_xp ∷ js) = IsRoutine js
IsRoutine (reincarnate ∷ js) = IsRoutine js

-- The jobs that may wait in each state.
abbrev pub Fits : State → List Job → Type 0
Fits uninit js = js ≡ []
Fits initializing js = js ≡ init ∷ []
Fits idle js = IsRoutine js
Fits fighting js = IsRoutine js

abbrev pub is_ready : State → Bool
is_ready uninit = false
is_ready initializing = false
is_ready idle = true
is_ready fighting = true

IsRoutine-append :
    (js : List Job) (j : Job) → IsRoutine js → IsRoutine (j ∷ []) → IsRoutine (js ++ j ∷ [])
IsRoutine-append [] j h k = k
IsRoutine-append (init ∷ js) j h k = absurd h
IsRoutine-append (earn_xp ∷ js) j h k = IsRoutine-append js j h k
IsRoutine-append (reincarnate ∷ js) j h k = IsRoutine-append js j h k

process_input-Fits :
    (c : Character) (input : String)
    → Fits c.state c.executor
    → Fits (process_input c input).state (process_input c input).executor
unfolding process_input
process_input-Fits c input h = ground (arith, IsRoutine-append c.executor reincarnate)

fight_on-Fits :
    (c : Character)
    → IsRoutine c.executor
    → ((fight_on c).state ≡ c.state) × IsRoutine (fight_on c).executor
fight_on-Fits c h = ground (arith, IsRoutine-append c.executor earn_xp)

update-Fits :
    (s : State) (c c' : Character) (elapsed : ℕ)
    → c.state ≡ s
    → Fits s c.executor
    → update_in s c elapsed ≡ some c'
    → Fits c'.state c'.executor
update-Fits uninit c c' elapsed q h e =
    let same : c' ≡ spawn (record c { state = initializing }) init = cc e in rw (same, h) refl
update-Fits initializing c c' elapsed q h e = let same : c' ≡ c = cc e in rw (same, q) h
update-Fits idle c c' elapsed q h e = let same : c' ≡ c = cc e in rw (same, q) h
update-Fits fighting c c' elapsed q h e = elim (Option-cases (add_ns c.time_since_xp elapsed)) [
  | inl f ↦ cc (rw (f, ◌>>=◌) at e)
  | inr (t, f) ↦
      let same : c' ≡ fight_on (record c { time_since_xp = t }) = cc (rw (f, ◌>>=◌) at e) in
      let (a, b) = fight_on-Fits (record c { time_since_xp = t }) h in
      subst (λ (x : Character). Fits x.state x.executor) (sym same)
        (subst (λ (x : State). Fits x (fight_on (record c { time_since_xp = t })).executor)
          (sym (a ∙ q)) b)
]

run_job_state :
    (c c' : Character) (j : Job)
    → run_job c j ≡ some c'
    → IsRoutine (j ∷ [])
    → (c'.state ≡ c.state) × (c'.executor ≡ c.executor)
unfolding run_job
run_job_state c c' j e h = ground arith

-- The state once the jobs that wait in it have run.
abbrev settled : State → State
settled uninit = uninit
settled initializing = idle
settled idle = idle
settled fighting = fighting

settled-Fits : (s : State) → Fits s [] → Fits (settled s) []
settled-Fits s h = ground arith

run_routine :
    (js : List Job) (c c' : Character)
    → IsRoutine js
    → run_jobs c js ≡ some c'
    → (c'.state ≡ c.state) × (c'.executor ≡ c.executor)
unfolding run_jobs
run_routine [] c c' h e = ground arith
run_routine (j ∷ js) c c' h e = elim (Option-cases (run_job c j)) [
  | inl f ↦ cc (rw (f, ◌>>=◌) at e)
  | inr (c₁, f) ↦
      let (s, x) = run_job_state c c₁ j f (head_routine j js h) in
      let (s', x') = run_routine js c₁ c' (tail_routine j js h) (rw (f, ◌>>=◌) at e) in
      (s' ∙ s, x' ∙ x)
]
  where
    head_routine : (i : Job) (is : List Job) → IsRoutine (i ∷ is) → IsRoutine (i ∷ [])
    head_routine init is k = k
    head_routine earn_xp is k = tt
    head_routine reincarnate is k = tt

    tail_routine : (i : Job) (is : List Job) → IsRoutine (i ∷ is) → IsRoutine is
    tail_routine init is k = absurd k
    tail_routine earn_xp is k = k
    tail_routine reincarnate is k = k

run_waiting :
    (s : State) (js : List Job) (c c' : Character)
    → Fits s js
    → run_jobs (record c { state = s; executor = [] }) js ≡ some c'
    → (c'.state ≡ settled s) × (c'.executor ≡ [])
unfolding run_jobs run_job CharacterService.get_player
run_waiting uninit js c c' h e = run_none (rw h at e)
  where
    run_none :
        run_jobs (record c { state = uninit; executor = [] }) [] ≡ some c'
        → (c'.state ≡ uninit) × (c'.executor ≡ [])
    run_none f = ground arith
run_waiting initializing js c c' h e = run_init (rw h at e)
  where
    run_init :
        run_jobs (record c { state = initializing; executor = [] }) (init ∷ []) ≡ some c'
        → (c'.state ≡ idle) × (c'.executor ≡ [])
    run_init f = ground arith
run_waiting idle js c c' h e = run_routine js (record c { state = idle; executor = [] }) c' h e
run_waiting fighting js c c' h e =
    run_routine js (record c { state = fighting; executor = [] }) c' h e

pre_update-Fits :
    (c c' : Character)
    → Fits c.state c.executor
    → pre_update c ≡ some c'
    → Fits c'.state c'.executor
unfolding pre_update
pre_update-Fits c c' h e =
    let (s, x) = run_waiting c.state c.executor c c' h e in rw (s, x) (emptied c.state c.executor h)
  where
    emptied : (s : State) (js : List Job) → Fits s js → Fits (settled s) []
    emptied s js k = ground arith

abbrev is_quit : Option String → Bool
is_quit none = false
is_quit (some input) = str_eq input "quit"

-- Whatever the first two frames, without "quit" as their input, the game plays on as from a
-- character that is idle and otherwise new: other inputs are ignored.
play_ready :
    (i₁ i₂ : Option String) (e₁ e₂ : ℕ) (fs : List (Option String × ℕ))
    → is_quit i₁ ≡ false
    → is_quit i₂ ≡ false
    → play new_character ((i₁, e₁) ∷ (i₂, e₂) ∷ fs)
      ≡ play (record new_character { state = idle }) fs
unfolding play game_update process_input pre_update update run_jobs run_job
    CharacterService.get_player
play_ready none none e₁ e₂ fs h₁ h₂ = refl
play_ready none (some i) e₁ e₂ fs h₁ h₂ = rw (h₂) refl
play_ready (some i) none e₁ e₂ fs h₁ h₂ = rw (h₁) refl
play_ready (some i) (some k) e₁ e₂ fs h₁ h₂ = rw (h₁, h₂) refl

rest_Fits :
    (c c' : Character) (elapsed : ℕ) (done : Bool)
    → Fits c.state c.executor
    → end_frame elapsed (pre_update c) ≡ some (done, c')
    → Fits c'.state c'.executor
unfolding update
rest_Fits c c' elapsed done h e = elim (Option-cases (pre_update c)) [
  | inl f ↦ cc (rw (f, ◌>>=◌) at e)
  | inr (c₁, f) ↦ elim (Option-cases (update c₁ elapsed)) [
    | inl g ↦ cc (rw (f, ◌>>=◌, g) at e)
    | inr (c₂, g) ↦
        let same : c' ≡ c₂ = cc (rw (f, ◌>>=◌, g) at e) in
        rw same (update-Fits c₁.state c₁ c₂ elapsed refl (pre_update-Fits c c₁ h f) g)
  ]
]

game_update-Fits :
    (c c' : Character) (input : Option String) (elapsed : ℕ) (done : Bool)
    → Fits c.state c.executor
    → game_update c input elapsed ≡ some (done, c')
    → Fits c'.state c'.executor
unfolding game_update
game_update-Fits c c' none elapsed done h e = rest_Fits c c' elapsed done h e
game_update-Fits c c' (some input) elapsed done h e = elim (Bool-cases (str_eq input "quit")) [
  | inl quit ↦ let same : c' ≡ c = cc (rw (quit, game_update) at e) in rw same h
  | inr on ↦
      rest_Fits (process_input c input) c' elapsed done (process_input-Fits c input h)
        (rw (on, game_update) at e)
]

play-Fits :
    (fs : List (Option String × ℕ)) (c c' : Character)
    → Fits c.state c.executor
    → play c fs ≡ some c'
    → Fits c'.state c'.executor
unfolding play
play-Fits [] c c' h e = let same : c' ≡ c = cc e in rw same h
play-Fits ((input, elapsed) ∷ fs) c c' h e = elim (Option-cases (game_update c input elapsed)) [
  | inl f ↦ cc (rw (f, ◌>>=◌) at e)
  | inr ((done, c₁), f) ↦
      let h₁ = game_update-Fits c c₁ input elapsed done h f in
      elim (Bool-cases done) [
        | inl over ↦ let same : c' ≡ c₁ = cc (rw (f, ◌>>=◌, over) at e) in rw same h₁
        | inr on ↦ play-Fits fs c₁ c' h₁ (rw (f, ◌>>=◌, on) at e)
      ]
]

-- Whatever the inputs of fewer than 2^62 - 1 frames, which together take less than 2^63 nanoseconds,
-- they run, and behind them no job waits if the character is not initialized yet, `Init` alone waits
-- if it is initializing, and no `Init` waits if it is idle or fights.
pub play_new-Fits :
    (fs : List (Option String × ℕ))
    → length fs < 2 ^ 62 - 1
    → elapsed_in fs < 2 ^ 63
    → (c : Character) × (play new_character fs ≡ some c) × Fits c.state c.executor
play_new-Fits fs l t =
    let (c, e, _) = play-HasRoom fs l t in (c, e, play-Fits fs new_character c refl e)
