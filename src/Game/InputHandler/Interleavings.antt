-- ===== src/Game/InputHandler/Interleavings.antt =====
-- Whole interleavings of the two threads of `InputHandler` (game/main.cpp).
use Prim.Native.String.{String}
use mathlib.Core.Option.{some-injective}
use async_sandbox.Prelude.{
  ◌≡◌, refl, sym, ap, ◌∙◌, false, Option, none, some, List, [], ◌∷◌, ◌>>=◌, inl, inr, ◌≢◌,
  Option-cases, subst,
}
use async_sandbox.Game.InputHandler.{
  ThreadAt, testing, announcing, before_wait, waiting, woken, reading, fulfilling, returned,
  terminated, GameAt, spinning, renewing, notifying, polling, stopping, notifying_stop, joining,
  finished, InputHandler, new_input_handler, thread_step, notified, polled, game_step, Event,
  of_thread, of_game, spurious_wakeup, handle, run,
}
use async_sandbox.Game.InputHandler.Promises.{
  IsNotified, Fits, OrNone, thread_step-Fits, game_step-Fits,
}

handle-Fits : (s : InputHandler) (e : Event) → IsNotified (e ∷ []) → Fits s → OrNone (handle s e)
unfolding handle
handle-Fits s (of_thread line) n (f, r) = thread_step-Fits s line s.thread f r
handle-Fits s of_game n (f, r) = game_step-Fits s s.game f r
handle-Fits s spurious_wakeup n f = absurd n

IsNotified-head :
    (e : Event) (es : List Event) → IsNotified (e ∷ es) → IsNotified (e ∷ []) × IsNotified es
IsNotified-head (of_thread line) es n = (tt, n)
IsNotified-head of_game es n = (tt, n)
IsNotified-head spurious_wakeup es n = absurd n

-- What each step preserves, the run preserves.
run_preserves :
    (P : InputHandler → Type 0)
    → ((s s' : InputHandler) (e : Event) → IsNotified (e ∷ []) → P s → handle s e ≡ some s' → P s')
    → (es : List Event) (s s' : InputHandler) → IsNotified es
    → P s
    → run s es ≡ some s'
    → P s'
unfolding run
run_preserves P step [] s s' n f q = subst P (some-injective _ _ q) f
run_preserves P step (e ∷ es) s s' n f q = elim (Option-cases (handle s e)) [
  | inl g ↦ cc (rw (g, ◌>>=◌) at q)
  | inr (s₁, g) ↦
      let (now, later) = IsNotified-head e es n in
      run_preserves P step es s₁ s' later (step s s₁ e now f g) (rw (g, ◌>>=◌) at q)
]

from_OrNone : (o : Option InputHandler) (s : InputHandler) → OrNone o → o ≡ some s → Fits s
from_OrNone none s f e = cc
from_OrNone (some x) s f e = subst Fits (some-injective _ _ e) f

never_terminated : (s : InputHandler) → Fits s → s.thread ≢ terminated
never_terminated s (f, r) e = rw e at f

-- In any interleaving in which each return of the wait follows a notification, `set_value` never finds
-- a promise that holds a value already.
pub set_value_once :
    (es : List Event) (s : InputHandler)
    → IsNotified es
    → run new_input_handler es ≡ some s
    → s.thread ≢ terminated
set_value_once es s n q = never_terminated s (
    run_preserves Fits (λ x x' e k f g. from_OrNone (handle x e) x' (handle-Fits x e k f) g) es
      new_input_handler s n (tt, tt) q)

-- The thread has not been notified since the promise was renewed, and the game waits for it.
abbrev AsleepAt : ThreadAt → Type 0
AsleepAt testing = Unit
AsleepAt announcing = Unit
AsleepAt before_wait = Unit
AsleepAt waiting = Unit
AsleepAt _ = ⊥

abbrev Asleep : InputHandler → Type 0
Asleep s = (s.stop ≡ false) × (s.input ≡ none) × (s.game ≡ polling) × AsleepAt s.thread

thread_step-Asleep :
    (s s' : InputHandler) (line : String) (t : ThreadAt)
    → s.stop ≡ false
    → s.input ≡ none
    → s.game ≡ polling
    → AsleepAt t
    → thread_step s line t ≡ some s'
    → Asleep s'
unfolding thread_step
thread_step-Asleep s s' line testing n i g a e =
    subst Asleep (some-injective _ _ e) (n, i, g, rw n tt)
thread_step-Asleep s s' line announcing n i g a e =
    subst Asleep (some-injective _ _ e) (n, i, g, tt)
thread_step-Asleep s s' line before_wait n i g a e =
    subst Asleep (some-injective _ _ e) (n, i, g, tt)
thread_step-Asleep s s' line waiting n i g a e = cc
thread_step-Asleep s s' line woken n i g a e = absurd a
thread_step-Asleep s s' line reading n i g a e = absurd a
thread_step-Asleep s s' line (fulfilling l) n i g a e = absurd a
thread_step-Asleep s s' line returned n i g a e = absurd a
thread_step-Asleep s s' line terminated n i g a e = absurd a

polls_on :
    (s s' : InputHandler) (g : GameAt)
    → s.input ≡ none
    → g ≡ polling
    → game_step s g ≡ some s'
    → some (record s { game = polling }) ≡ some s'
unfolding game_step
polls_on s s' spinning i g e = cc
polls_on s s' renewing i g e = cc
polls_on s s' notifying i g e = cc
polls_on s s' polling i g e =
    ap (λ (x : Option String). some (record s { game = polled x })) (sym i) ∙ e
polls_on s s' stopping i g e = cc
polls_on s s' notifying_stop i g e = cc
polls_on s s' joining i g e = cc
polls_on s s' finished i g e = cc

handle-Asleep :
    (s s' : InputHandler) (e : Event)
    → IsNotified (e ∷ [])
    → Asleep s
    → handle s e ≡ some s'
    → Asleep s'
unfolding handle
handle-Asleep s s' (of_thread line) k (n, i, g, a) e =
    thread_step-Asleep s s' line s.thread n i g a e
handle-Asleep s s' of_game k (n, i, g, a) e =
    subst Asleep (some-injective _ _ (polls_on s s' s.game i g e)) (n, i, refl, a)
handle-Asleep s s' spurious_wakeup k h e = absurd k

-- A thread that does not wait yet.
abbrev pub IsEarly : ThreadAt → Type 0
IsEarly testing = Unit
IsEarly announcing = Unit
IsEarly before_wait = Unit
IsEarly _ = ⊥

notified-IsEarly : (t : ThreadAt) → IsEarly t → AsleepAt (notified t)
notified-IsEarly testing a = tt
notified-IsEarly announcing a = tt
notified-IsEarly before_wait a = tt
notified-IsEarly waiting a = absurd a
notified-IsEarly woken a = absurd a
notified-IsEarly reading a = absurd a
notified-IsEarly (fulfilling l) a = absurd a
notified-IsEarly returned a = absurd a
notified-IsEarly terminated a = absurd a

notify-Asleep :
    (s s' : InputHandler) (g : GameAt)
    → g ≡ notifying
    → s.stop ≡ false
    → s.input ≡ none
    → IsEarly s.thread
    → game_step s g ≡ some s'
    → Asleep s'
unfolding game_step
notify-Asleep s s' spinning p n i a e = cc
notify-Asleep s s' renewing p n i a e = cc
notify-Asleep s s' notifying p n i a e =
    subst Asleep (some-injective _ _ e) (n, i, refl, notified-IsEarly s.thread a)
notify-Asleep s s' polling p n i a e = cc
notify-Asleep s s' stopping p n i a e = cc
notify-Asleep s s' notifying_stop p n i a e = cc
notify-Asleep s s' joining p n i a e = cc
notify-Asleep s s' finished p n i a e = cc

-- If the game notifies a thread that does not wait yet, and is not to stop, for a new promise, then in
-- any interleaving after that, in which each return of the wait follows a notification, the game
-- gets no input, and goes on waiting for it.
pub lost_notification :
    (s s' : InputHandler) (es : List Event)
    → s.game ≡ notifying
    → s.stop ≡ false
    → s.input ≡ none
    → IsEarly s.thread
    → IsNotified es
    → run s (of_game ∷ es) ≡ some s'
    → (s'.game ≡ polling) × (s'.input ≡ none)
unfolding run handle
lost_notification s s' es p n i a k q = elim (Option-cases (game_step s s.game)) [
  | inl g ↦ cc (rw (g, ◌>>=◌) at q)
  | inr (s₁, g) ↦
      let (n', i', g', a') =
        run_preserves Asleep handle-Asleep es s₁ s' k (notify-Asleep s s₁ s.game p n i a g)
          (rw (g, ◌>>=◌) at q) in
      (g', i')
]
