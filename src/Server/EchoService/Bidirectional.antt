-- ===== src/Server/EchoService/Bidirectional.antt =====
-- The bidirectional stream of async_grpc/server/echo_service_impl.cpp.
use async_sandbox.Prelude.{
  ◌≡◌, refl, Bool, true, false, Option, none, some, Option-cases, sym, ap, ◌∙◌, List, [], ◌∷◌, ◌++◌,
  arith, inl, inr, Bool-cases, ◌||◌, ◌==◌, if◌then◌else◌,
}
use text.Mathlib.Text.{◌==◌ as str_eq}
use async_sandbox.AsyncGrpc.Status.{is_ok, ok_status}
use async_sandbox.Server.EchoService.{
  Command, message, start, stop, unset, Effect, started, stopped, Echo, process, process_all,
  clean_up, end_subroutine, bidirectional_echo,
}

-- Reads the effects as a protocol: whether a subroutine runs after them, if each start came on a
-- message that is not empty with a delay that is not 0 while none ran, and each stop while one ran.
abbrev pub running_after : Bool → List Effect → Option Bool
running_after r [] = some r
running_after true (started m d ∷ es) = none
running_after false (started m d ∷ es) =
    if str_eq m "" || d == 0 then none else running_after true es
running_after true (stopped ∷ es) = running_after false es
running_after false (stopped ∷ es) = none

abbrev pub IsPaired : Echo → Type 0
IsPaired e = running_after false e.effects ≡ some e.subroutine

continue_running : Option Bool → List Effect → Option Bool
continue_running none es = none
continue_running (some r) es = running_after r es

running_after-append :
    (r : Bool) (es fs : List Effect)
    → running_after r (es ++ fs) ≡ continue_running (running_after r es) fs
unfolding continue_running
running_after-append r [] fs = refl
running_after-append true (started m d ∷ es) fs = refl
running_after-append false (started m d ∷ es) fs = ground (arith, running_after-append true es fs)
running_after-append true (stopped ∷ es) fs = running_after-append false es fs
running_after-append false (stopped ∷ es) fs = refl

process-IsPaired :
    (e : Echo) (c : Command) {e' : Echo} → IsPaired e → process e c ≡ some e' → IsPaired e'
unfolding process continue_running
process-IsPaired e (message m d) h p = ground arith
process-IsPaired e start h p =
    ground (arith, running_after-append false e.effects (started e.response e.delay_ms ∷ []))
process-IsPaired e stop h p = ground (arith, running_after-append false e.effects (stopped ∷ []))
process-IsPaired e unset h p = cc

pub process_all-IsPaired :
    (e e' : Echo) (cs : List Command) → IsPaired e → process_all e cs ≡ some e' → IsPaired e'
unfolding process_all
process_all-IsPaired e e' [] p h = let same : e' ≡ e = cc h in rw same p
process_all-IsPaired e e' (c ∷ cs) p h = elim (Bool-cases (is_ok e.status)) [
  | inl go_on ↦ elim (Option-cases (process e c)) [
    | inl q ↦ cc (rw (go_on, q, process_all) at h)
    | inr (e₁, q) ↦
        process_all-IsPaired e₁ e' cs (process-IsPaired e c p q) (rw (go_on, q, process_all) at h)
  ]
  | inr over ↦ let same : e' ≡ e = cc (rw (over, process_all) at h) in rw same p
]

pub clean_up-IsPaired :
    (e : Echo) → IsPaired e → IsPaired (clean_up e) × ((clean_up e).subroutine ≡ false)
unfolding continue_running
clean_up-IsPaired e p = ground (arith, running_after-append false e.effects (stopped ∷ []))

before_stop : (o : Option Bool) → continue_running o (stopped ∷ []) ≡ some false → o ≡ some true
unfolding continue_running
before_stop none h = cc
before_stop (some true) h = refl
before_stop (some false) h = cc

-- A subroutine that is ended was running.
pub end_subroutine-IsPaired :
    (e : Echo) → e.subroutine ≡ true → IsPaired (end_subroutine e) → IsPaired e
end_subroutine-IsPaired e y p =
    before_stop (running_after false e.effects)
      (sym (running_after-append false e.effects (stopped ∷ [])) ∙ p)
    ∙ ap (λ (b : Bool). some b) (sym y)

-- If the first request is a stop, which the handler refuses since nothing runs, the loop ends
-- with a status that is not OK, and the client is sent OK all the same.
pub refused_stop_is_ok :
    (cs : List Command)
    → (e : Echo) × (bidirectional_echo (stop ∷ cs) ≡ some (e, ok_status)) × (is_ok e.status ≡ false)
unfolding bidirectional_echo process_all process
refused_stop_is_ok [] = (_, refl, refl)
refused_stop_is_ok (c ∷ cs) = (_, refl, refl)
