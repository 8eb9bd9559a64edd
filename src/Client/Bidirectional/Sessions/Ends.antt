-- ===== src/Client/Bidirectional/Sessions/Ends.antt =====
-- The end of a bidirectional call of async_grpc/client/main.cpp, from whatever point it stands at.
use Prim.Native.String.{String}
use async_sandbox.Prelude.{◌≡◌, refl, Bool, true, false, some, none, List, [], ◌∷◌, ◌>>=◌}
use async_sandbox.Client.Bidirectional.{Step, steps, finished}
use async_sandbox.Client.Bidirectional.Sessions.{
  HandlerAt, starting, at_steps, awaiting, ended, ReaderAt, absent, reading, left, Session,
  new_session, go_on, on_started, on_step, on_read, Event, started, step_done, read_done, handle,
  run, flags_of,
}
use async_sandbox.Client.Bidirectional.Sessions.Fitting.{is_present, FitsAt}
use async_sandbox.Client.Bidirectional.Sessions.Agreement.{run-Fits, new-Fits}

-- Further events bring the handler to its end behind its subroutine.
abbrev pub CanFinish : Session → Type 0
CanFinish s =
    (es : List Event) × (s' : Session) × (run s es ≡ some s') × (s'.handler ≡ ended finished)

CanFinish-step : (s s₁ : Session) (e : Event) → handle s e ≡ some s₁ → CanFinish s₁ → CanFinish s
unfolding run
CanFinish-step s s₁ e h (es, s', r, d) = (e ∷ es, s', rw (h, ◌>>=◌) r, d)

abbrev standing : HandlerAt → ReaderAt → Bool → List String → Session
standing h r c rs = record { handler = h; reader = r; cancelled = c; received = rs }

CanFinish-ended :
    (r : ReaderAt) (c : Bool) (rs : List String) → CanFinish (standing (ended finished) r c rs)
unfolding run
CanFinish-ended r c rs = ([], _, refl, refl)

CanFinish-awaiting : (c : Bool) (rs : List String) → CanFinish (standing awaiting reading c rs)
unfolding handle on_read
CanFinish-awaiting c rs = CanFinish-step _ _ (read_done none) refl (CanFinish-ended absent c rs)

CanFinish-steps :
    (xs : List Step) (h : HandlerAt) (r : ReaderAt) (c : Bool) (rs : List String)
    → is_present r ≡ true
    → CanFinish (go_on xs (standing h r c rs))
unfolding go_on handle on_step
CanFinish-steps [] h absent c rs p = cc
CanFinish-steps [] h reading c rs p = CanFinish-awaiting true rs
CanFinish-steps [] h left c rs p = CanFinish-ended absent true rs
CanFinish-steps (x ∷ xs) h r c rs p =
    CanFinish-step _ _ (step_done true) refl (CanFinish-steps xs (at_steps (x ∷ xs)) r c rs p)

abbrev pub has_ended : HandlerAt → Bool
has_ended (ended e) = true
has_ended _ = false

CanFinish-at :
    (fs : List Bool) (h : HandlerAt) (r : ReaderAt) (c : Bool) (rs : List String)
    → has_ended h ≡ false
    → FitsAt fs r h
    → CanFinish (standing h r c rs)
unfolding handle on_started go_on
CanFinish-at fs starting r c rs n f =
    CanFinish-step _ _ (started true) refl (CanFinish-steps steps starting reading c rs refl)
CanFinish-at fs (at_steps []) r c rs n (a, b, p) = cc
CanFinish-at fs (at_steps (x ∷ xs)) r c rs n (a, b, p) = CanFinish-steps (x ∷ xs) starting r c rs p
CanFinish-at fs awaiting r c rs n (a, p) = rw p (CanFinish-awaiting c rs)
CanFinish-at fs (ended e) r c rs n f = cc

-- Wherever its events have brought a call whose handler has not ended, further events bring the handler
-- to its end behind its subroutine: it never waits for a read subroutine that is gone.
pub run-CanFinish :
    (es : List Event) (s : Session)
    → run new_session es ≡ some s
    → has_ended s.handler ≡ false
    → CanFinish s
run-CanFinish es s q n =
    CanFinish-at (flags_of es) s.handler s.reader s.cancelled s.received n
      (run-Fits es [] [] new_session s new-Fits q).0
