-- ===== src/Game/InputHandler/Promises.antt =====
-- What becomes of the promises of `InputHandler` of game/main.cpp.
use Prim.Native.String.{String}
use text.Mathlib.Text.{◌==◌ as str_eq}
use async_sandbox.Prelude.{
  Bool-cases, ◌≡◌, refl, Bool, true, false, Option, none, some, List, [], ◌∷◌, ◌>>=◌, ◌⊎◌, inl, inr,
  ◌≢◌,
}
use async_sandbox.Game.InputHandler.{
  ThreadAt, testing, announcing, before_wait, waiting, woken, reading, fulfilling, returned,
  terminated, GameAt, spinning, renewing, notifying, polling, stopping, notifying_stop, joining,
  finished, InputHandler, set_value, thread_step, notified, polled, joined, game_step, Event,
  of_thread, of_game, spurious_wakeup,
}

-- Each return of `m_cv.wait` follows a notification.
abbrev pub IsNotified : List Event → Type 0
IsNotified [] = Unit
IsNotified (spurious_wakeup ∷ es) = ⊥
IsNotified (of_thread line ∷ es) = IsNotified es
IsNotified (of_game ∷ es) = IsNotified es

-- A thread that has been asked for a line finds the promise without a value, and the game between two
-- frames.
abbrev pub FitsAt : Bool → Option String → GameAt → ThreadAt → Type 0
FitsAt stop input g woken = (stop ≡ true) ⊎ ((input ≡ none) × (g ≡ polling))
FitsAt stop input g reading = (input ≡ none) × (g ≡ polling)
FitsAt stop input g (fulfilling l) = (input ≡ none) × (g ≡ polling)
FitsAt stop input g terminated = ⊥
FitsAt stop input g _ = Unit

-- The game notifies once it has a new promise, or has asked the thread to stop.
abbrev pub Renewed : Bool → Option String → GameAt → Type 0
Renewed stop input notifying = input ≡ none
Renewed stop input notifying_stop = stop ≡ true
Renewed stop input _ = Unit

abbrev pub Fits : InputHandler → Type 0
Fits s = FitsAt s.stop s.input s.game s.thread × Renewed s.stop s.input s.game

abbrev pub OrNone : Option InputHandler → Type 0
OrNone none = Unit
OrNone (some s) = Fits s

-- Outside its frames the game finds the thread asked for nothing.
away :
    (stop : Bool) (i j : Option String) (g h : GameAt) (t : ThreadAt)
    → g ≢ polling
    → FitsAt stop i g t
    → FitsAt stop j h t
away stop i j g h testing d f = tt
away stop i j g h announcing d f = tt
away stop i j g h before_wait d f = tt
away stop i j g h waiting d f = tt
away stop i j g h woken d (inl y) = inl y
away stop i j g h woken d (inr (e, p)) = absurd (d p)
away stop i j g h reading d (e, p) = absurd (d p)
away stop i j g h (fulfilling l) d (e, p) = absurd (d p)
away stop i j g h returned d f = tt
away stop i j g h terminated d f = absurd f

fits_stopped :
    (stop : Bool) (i : Option String) (g : GameAt) (t : ThreadAt)
    → FitsAt stop i g t
    → g ≢ polling
    → FitsAt true i notifying_stop t
fits_stopped stop i g testing f d = tt
fits_stopped stop i g announcing f d = tt
fits_stopped stop i g before_wait f d = tt
fits_stopped stop i g waiting f d = tt
fits_stopped stop i g woken f d = inl refl
fits_stopped stop i g reading (e, p) d = absurd (d p)
fits_stopped stop i g (fulfilling l) (e, p) d = absurd (d p)
fits_stopped stop i g returned f d = tt
fits_stopped stop i g terminated f d = absurd f

-- A notification in either of its two places.
fits_notified :
    (stop : Bool) (i : Option String) (g h : GameAt) (t : ThreadAt)
    → g ≢ polling
    → ((stop ≡ true) ⊎ ((i ≡ none) × (h ≡ polling)))
    → FitsAt stop i g t
    → FitsAt stop i h (notified t)
fits_notified stop i g h testing d w f = tt
fits_notified stop i g h announcing d w f = tt
fits_notified stop i g h before_wait d w f = tt
fits_notified stop i g h waiting d w f = w
fits_notified stop i g h woken d w f = w
fits_notified stop i g h reading d w (e, p) = absurd (d p)
fits_notified stop i g h (fulfilling l) d w (e, p) = absurd (d p)
fits_notified stop i g h returned d w f = tt
fits_notified stop i g h terminated d w f = absurd f

-- A promise with a value: the thread has not been asked for another.
fits_with_input :
    (stop : Bool) (line : String) (h : GameAt) (t : ThreadAt)
    → FitsAt stop (some line) polling t
    → FitsAt stop (some line) h t
fits_with_input stop line h testing f = tt
fits_with_input stop line h announcing f = tt
fits_with_input stop line h before_wait f = tt
fits_with_input stop line h waiting f = tt
fits_with_input stop line h woken (inl y) = inl y
fits_with_input stop line h woken (inr (e, p)) = cc
fits_with_input stop line h reading (e, p) = cc
fits_with_input stop line h (fulfilling l) (e, p) = cc
fits_with_input stop line h returned f = tt
fits_with_input stop line h terminated f = absurd f

woken_on :
    (stop : Bool) (i : Option String) (g : GameAt)
    → FitsAt stop i g woken
    → stop ≡ false
    → (i ≡ none) × (g ≡ polling)
woken_on stop i g (inl y) n = cc
woken_on stop i g (inr f) n = f

fits_polled :
    (stop : Bool) (i : Option String) (t : ThreadAt)
    → FitsAt stop i polling t
    → FitsAt stop i (polled i) t × Renewed stop i (polled i)
fits_polled stop none t f = (f, tt)
fits_polled stop (some line) t f = elim (Bool-cases (str_eq line "quit")) [
  | inl y ↦ rw y (fits_with_input stop line stopping t f, tt)
  | inr n ↦ rw n (fits_with_input stop line renewing t f, tt)
]

Fits-set :
    (s : InputHandler) (i : Option String) (l : String)
    → i ≡ none
    → s.game ≡ polling
    → Fits (set_value s i l)
Fits-set s none l e g = (tt, rw g tt)
Fits-set s (some old) l e g = cc

fits_joined :
    (s : InputHandler) (t : ThreadAt)
    → FitsAt s.stop s.input finished s.thread
    → OrNone (joined t >>= λ g. some (record s { game = g }))
fits_joined s testing f = tt
fits_joined s announcing f = tt
fits_joined s before_wait f = tt
fits_joined s waiting f = tt
fits_joined s woken f = tt
fits_joined s reading f = tt
fits_joined s (fulfilling l) f = tt
fits_joined s returned f = (f, tt)
fits_joined s terminated f = tt

pub thread_step-Fits :
    (s : InputHandler) (line : String) (t : ThreadAt)
    → FitsAt s.stop s.input s.game t
    → Renewed s.stop s.input s.game
    → OrNone (thread_step s line t)
unfolding thread_step
thread_step-Fits s line testing f r = elim (Bool-cases s.stop) [
  | inl y ↦ rw y (tt, (rw y at r))
  | inr n ↦ rw n (tt, (rw n at r))
]
thread_step-Fits s line announcing f r = (tt, r)
thread_step-Fits s line before_wait f r = (tt, r)
thread_step-Fits s line waiting f r = tt
thread_step-Fits s line woken f r = elim (Bool-cases s.stop) [
  | inl y ↦ rw y (tt, (rw y at r))
  | inr n ↦ rw n (woken_on s.stop s.input s.game f n, (rw n at r))
]
thread_step-Fits s line reading f r = (f, r)
thread_step-Fits s line (fulfilling l) (e, g) r = Fits-set s s.input l e g
thread_step-Fits s line returned f r = tt
thread_step-Fits s line terminated f r = absurd f

pub game_step-Fits :
    (s : InputHandler) (g : GameAt)
    → FitsAt s.stop s.input g s.thread
    → Renewed s.stop s.input g
    → OrNone (game_step s g)
unfolding game_step
game_step-Fits s spinning f r = elim (Bool-cases s.ready) [
  | inl y ↦ rw y (away s.stop s.input s.input spinning renewing s.thread (λ p. cc) f, tt)
  | inr n ↦ rw n (f, tt)
]
game_step-Fits s renewing f r =
    (away s.stop s.input none renewing notifying s.thread (λ p. cc) f, refl)
game_step-Fits s notifying f r =
    (fits_notified s.stop s.input notifying polling s.thread (λ p. cc) (inr (r, refl)) f, tt)
game_step-Fits s polling f r = fits_polled s.stop s.input s.thread f
game_step-Fits s stopping f r = (fits_stopped s.stop s.input stopping s.thread f (λ p. cc), refl)
game_step-Fits s notifying_stop f r =
    (fits_notified s.stop s.input notifying_stop joining s.thread (λ p. cc) (inl r) f, tt)
game_step-Fits s joining f r =
    fits_joined s s.thread (away s.stop s.input s.input joining finished s.thread (λ p. cc) f)
game_step-Fits s finished f r = tt
