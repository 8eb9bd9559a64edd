-- ===== src/Client/Bidirectional/Sessions/Fitting.antt =====
-- Where the handler and the read subroutine of the bidirectional call stand, against the handler of
-- Client.Bidirectional, which takes its steps without the subroutine's.
use Prim.Native.String.{String}
use mathlib.Core.List.{append-nil, append_assoc}
use async_sandbox.Prelude.{
  ℕ, zero, suc, ◌≡◌, refl, ap, subst, ◌∙◌, Bool, true, false, Option, none, some, List, [], ◌∷◌,
  ◌++◌,
}
use async_sandbox.Client.Bidirectional.{
  Step, steps, End, finished, take_steps, bidirectional_stream_echo,
}
use async_sandbox.Client.Bidirectional.Sessions.{
  HandlerAt, starting, at_steps, awaiting, ended, ReaderAt, absent, reading, left, Session,
  await_reader, go_on, on_started, on_step, reader_left, on_read,
}

-- The operation `n` works as the flags say; behind them none does.
abbrev pub works_of : List Bool → ℕ → Bool
works_of [] n = false
works_of (b ∷ bs) zero = b
works_of (b ∷ bs) (suc n) = works_of bs n

abbrev pub end_of : List Bool → End
end_of flags = (bidirectional_stream_echo (works_of flags)).1

abbrev end_from : List Step → List Bool → End
end_from xs flags = (take_steps (works_of flags) 0 xs).1

take_steps-later :
    (b : Bool) (flags : List Bool) (n : ℕ) (xs : List Step)
    → take_steps (works_of (b ∷ flags)) (suc n) xs ≡ take_steps (works_of flags) n xs
unfolding take_steps
take_steps-later b flags n [] = refl
take_steps-later b flags n (x ∷ xs) = rw (take_steps-later b flags (suc n) xs) refl

abbrev has_next : List Step → Bool
has_next [] = false
has_next (x ∷ xs) = true

abbrev pub is_present : ReaderAt → Bool
is_present absent = false
is_present _ = true

-- What comes of the flags that the handler has seen, whatever the further ones, is what comes of the
-- further ones from where it stands.
abbrev pub FitsAt : List Bool → ReaderAt → HandlerAt → Type 0
FitsAt fs r starting = fs ≡ []
FitsAt fs r (at_steps xs) =
    ((gs : List Bool) → end_of (fs ++ gs) ≡ end_from xs gs)
    × (has_next xs ≡ true)
    × (is_present r ≡ true)
FitsAt fs r awaiting = ((gs : List Bool) → end_of (fs ++ gs) ≡ finished) × (r ≡ reading)
FitsAt fs r (ended e) = (gs : List Bool) → end_of (fs ++ gs) ≡ e

abbrev pub Fits : List Bool → List String → Session → Type 0
Fits fs rs s = FitsAt fs s.reader s.handler × (s.received ≡ rs)

abbrev pub OrNone : List Bool → List String → Option Session → Type 0
OrNone fs rs none = Unit
OrNone fs rs (some s) = Fits fs rs s

await_reader-Fits :
    (fs : List Bool) (s : Session) (r : ReaderAt)
    → s.reader ≡ r
    → ((gs : List Bool) → end_of (fs ++ gs) ≡ finished)
    → is_present r ≡ true
    → Fits fs s.received (await_reader r s)
await_reader-Fits fs s absent e h p = cc
await_reader-Fits fs s reading e h p = ((h, e), refl)
await_reader-Fits fs s left e h p = (h, refl)

go_on-Fits :
    (fs : List Bool) (s : Session) (xs : List Step)
    → ((gs : List Bool) → end_of (fs ++ gs) ≡ end_from xs gs)
    → is_present s.reader ≡ true
    → Fits fs s.received (go_on xs s)
unfolding go_on take_steps
go_on-Fits fs s [] h p = await_reader-Fits fs s s.reader refl h p
go_on-Fits fs s (x ∷ xs) h p = ((h, refl, p), refl)

pub on_started-Fits :
    (fs : List Bool) (s : Session) (b : Bool) (h : HandlerAt)
    → FitsAt fs s.reader h
    → OrNone (fs ++ b ∷ []) s.received (on_started b h s)
unfolding on_started bidirectional_stream_echo
on_started-Fits fs s true starting f = (
  (λ gs. rw f (ap (λ (t : List Step × End). t.1) (take_steps-later true gs 0 steps)), refl, refl),
  refl,
)
on_started-Fits fs s false starting f = (λ gs. rw f refl, refl)
on_started-Fits fs s true (at_steps xs) f = tt
on_started-Fits fs s true awaiting f = tt
on_started-Fits fs s true (ended e) f = tt
on_started-Fits fs s false (at_steps xs) f = tt
on_started-Fits fs s false awaiting f = tt
on_started-Fits fs s false (ended e) f = tt

pub on_step-Fits :
    (fs : List Bool) (s : Session) (b : Bool) (h : HandlerAt)
    → FitsAt fs s.reader h
    → OrNone (fs ++ b ∷ []) s.received (on_step b h s)
unfolding on_step take_steps
on_step-Fits fs s true (at_steps (x ∷ xs)) (a, n, p) =
    go_on-Fits (fs ++ true ∷ []) s xs
      (λ gs.
        ap end_of (append_assoc fs (true ∷ []) gs)
        ∙ a (true ∷ gs)
        ∙ ap (λ (t : List Step × End). t.1) (take_steps-later true gs 0 xs))
      p
on_step-Fits fs s false (at_steps (x ∷ xs)) (a, n, p) =
    (λ gs. ap end_of (append_assoc fs (false ∷ []) gs) ∙ a (false ∷ gs), refl)
on_step-Fits fs s true (at_steps []) f = tt
on_step-Fits fs s false (at_steps []) f = tt
on_step-Fits fs s true starting f = tt
on_step-Fits fs s true awaiting f = tt
on_step-Fits fs s true (ended e) f = tt
on_step-Fits fs s false starting f = tt
on_step-Fits fs s false awaiting f = tt
on_step-Fits fs s false (ended e) f = tt

-- The subroutine has left its loop.
reader_left-Fits :
    (fs : List Bool) (s : Session) (h : HandlerAt)
    → s.handler ≡ h
    → FitsAt fs reading h
    → Fits fs s.received (reader_left h s)
reader_left-Fits fs s starting e f = (rw e f, refl)
reader_left-Fits fs s (at_steps xs) e (a, n, p) = (rw e (a, n, refl), refl)
reader_left-Fits fs s awaiting e (a, p) = (a, refl)
reader_left-Fits fs s (ended x) e f = (rw e f, refl)

-- The responses that a read gives.
abbrev pub responses : Option String → List String
responses none = []
responses (some r) = r ∷ []

pub on_read-Fits :
    (fs : List Bool) (s : Session) (o : Option String) (r : ReaderAt)
    → s.reader ≡ r
    → FitsAt fs s.reader s.handler
    → OrNone fs (s.received ++ responses o) (on_read o r s)
unfolding on_read
on_read-Fits fs s (some x) reading e f = (f, refl)
on_read-Fits fs s none reading e f =
    rw (append-nil s.received)
      (reader_left-Fits fs s s.handler refl (subst (λ (x : ReaderAt). FitsAt fs x s.handler) e f))
on_read-Fits fs s none absent e f = tt
on_read-Fits fs s none left e f = tt
on_read-Fits fs s (some x) absent e f = tt
on_read-Fits fs s (some x) left e f = tt
