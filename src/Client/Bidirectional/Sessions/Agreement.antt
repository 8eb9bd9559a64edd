-- ===== src/Client/Bidirectional/Sessions/Agreement.antt =====
-- Whole bidirectional calls of async_grpc/client/main.cpp.
use Prim.Native.String.{String}
use mathlib.Core.Option.{some-injective}
use mathlib.Core.List.{append-nil, append_assoc}
use async_sandbox.Prelude.{
  ◌≡◌, refl, sym, subst, ◌∙◌, Bool, Option, none, some, List, [], ◌∷◌, ◌++◌, ◌>>=◌, if◌then◌else◌,
  inl, inr, Option-cases,
}
use async_sandbox.Client.Outcomes.{all_work}
use async_sandbox.Client.Bidirectional.{
  End, not_started, aborted, finished, bidirectional_stream_echo_end,
}
use async_sandbox.Client.Bidirectional.Sessions.{
  HandlerAt, starting, at_steps, awaiting, ended, ReaderAt, Session, new_session, Event, started,
  step_done, read_done, handle, run, flags_of, responses_of,
}
use async_sandbox.Client.Bidirectional.Sessions.Fitting.{
  works_of, end_of, FitsAt, Fits, OrNone, on_started-Fits, on_step-Fits, on_read-Fits,
}

handle-Fits :
    (fs : List Bool) (rs : List String) (s : Session) (e : Event)
    → Fits fs rs s
    → OrNone (fs ++ flags_of (e ∷ [])) (rs ++ responses_of (e ∷ [])) (handle s e)
unfolding handle
handle-Fits fs rs s (started b) (f, q) =
    rw (append-nil rs, ← q) (on_started-Fits fs s b s.handler f)
handle-Fits fs rs s (step_done b) (f, q) = rw (append-nil rs, ← q) (on_step-Fits fs s b s.handler f)
handle-Fits fs rs s (read_done none) (f, q) =
    rw (append-nil fs, ← q) (on_read-Fits fs s none s.reader refl f)
handle-Fits fs rs s (read_done (some x)) (f, q) =
    rw (append-nil fs, ← q) (on_read-Fits fs s (some x) s.reader refl f)

flags_of-cons : (e : Event) (es : List Event) → flags_of (e ∷ es) ≡ flags_of (e ∷ []) ++ flags_of es
flags_of-cons (started b) es = refl
flags_of-cons (step_done b) es = refl
flags_of-cons (read_done r) es = refl

responses_of-cons :
    (e : Event) (es : List Event) → responses_of (e ∷ es) ≡ responses_of (e ∷ []) ++ responses_of es
responses_of-cons (started b) es = refl
responses_of-cons (step_done b) es = refl
responses_of-cons (read_done none) es = refl
responses_of-cons (read_done (some r)) es = refl

from_OrNone :
    (fs : List Bool) (rs : List String) (o : Option Session) (s : Session)
    → OrNone fs rs o
    → o ≡ some s
    → Fits fs rs s
from_OrNone fs rs none s f e = cc
from_OrNone fs rs (some x) s f e = subst (λ (y : Session). Fits fs rs y) (some-injective _ _ e) f

pub run-Fits :
    (es : List Event) (fs : List Bool) (rs : List String) (s s' : Session)
    → Fits fs rs s
    → run s es ≡ some s'
    → Fits (fs ++ flags_of es) (rs ++ responses_of es) s'
unfolding run
run-Fits [] fs rs s s' f q =
    rw (append-nil fs, append-nil rs)
      (subst (λ (y : Session). Fits fs rs y) (some-injective _ _ q) f)
run-Fits (e ∷ es) fs rs s s' f q = elim (Option-cases (handle s e)) [
  | inl g ↦ cc (rw (g, ◌>>=◌) at q)
  | inr (s₁, g) ↦
      rw
        (
          flags_of-cons e es,
          responses_of-cons e es,
          ← append_assoc fs (flags_of (e ∷ [])) (flags_of es),
          ← append_assoc rs (responses_of (e ∷ [])) (responses_of es),
        )
        (run-Fits es _ _ s₁ s' (from_OrNone _ _ _ s₁ (handle-Fits fs rs s e f) g)
          (rw (g, ◌>>=◌) at q))
]

pub new-Fits : Fits [] [] new_session
new-Fits = (refl, refl)

ends_as :
    (fs : List Bool) (r : ReaderAt) (h : HandlerAt) (e : End)
    → h ≡ ended e
    → FitsAt fs r h
    → end_of fs ≡ e
ends_as fs r starting e q f = cc
ends_as fs r (at_steps xs) e q f = cc
ends_as fs r awaiting e q f = cc
ends_as fs r (ended x) e q f =
    let a : end_of fs ≡ x = subst (λ (l : List Bool). end_of l ≡ x) (append-nil fs) (f []) in
    let b : x ≡ e = cc in a ∙ b

-- However the events of the subroutine's reads lie among those of the handler's operations: if the
-- handler has ended, it has not started where the call did not start, it has aborted where one of its
-- five further operations failed, and has finished where they all worked; and the subroutine has
-- received the responses of all reads, in their order.
pub run-end :
    (es : List Event) (s : Session) (e : End)
    → run new_session es ≡ some s
    → s.handler ≡ ended e
    → (e ≡ (
        if works_of (flags_of es) 0
        then if all_work (works_of (flags_of es)) 1 5 then finished else aborted
        else not_started))
      × (s.received ≡ responses_of es)
run-end es s e q h =
    let (f, r) = run-Fits es [] [] new_session s new-Fits q in
    (
      sym (ends_as (flags_of es) s.reader s.handler e h f)
          ∙ bidirectional_stream_echo_end (works_of (flags_of es)),
      r,
    )
