-- ===== src/AsyncGrpc/Status/Printing.antt =====
-- The stream operators of async_grpc/async_grpc/iostream.cpp, as the texts that they write. The numbers
-- of the codes are gRPC's: a parameter.
use Prim.Native.String.{String, ◌++◌ as ◌<>◌}
use text.Mathlib.Text.{starts_with}
use text.Mathlib.TextBridge.{IsPrefix}
use text.Mathlib.TextEquality.{starts_with_iff}
use text.Mathlib.TextLemmas.{append_assoc, append_cancel_left}
use async_sandbox.Prelude.{
  ℕ, zero, suc, ◌==◌, List, [] as nil, ◌∷◌, Bool, true, false, ◌&&◌, ◌||◌, not, arith, ◌≡◌, inl,
  inr, refl, sym, ap, ◌∙◌, if◌then◌else◌, Bool-cases,
}
use async_sandbox.Prelude.Texts.{prefixes_nested}
use async_sandbox.AsyncGrpc.Status.{
  StatusCode, ok, cancelled, unknown, invalid_argument, deadline_exceeded, not_found,
  already_exists, permission_denied, unauthenticated, resource_exhausted, failed_precondition,
  aborted, out_of_range, unimplemented, internal, unavailable, data_loss, do_not_use, Status, is_ok,
  to_string,
}

module _ (number : StatusCode → String) where
  -- `operator<<` of a code
  unfoldable pub print_code : StatusCode → String
  print_code code = to_string code <> ("(" <> (number code <> ")"))

  -- `operator<<` of a status
  unfoldable pub print_status : Status → String
  unfolding print_code
  print_status s = print_code s.error_code <> (if is_ok s then "" else ": " <> s.error_message)

abbrev all_codes : List StatusCode
all_codes =
    ok ∷ cancelled ∷ unknown ∷ invalid_argument ∷ deadline_exceeded ∷ not_found ∷ already_exists
    ∷ permission_denied ∷ unauthenticated ∷ resource_exhausted ∷ failed_precondition ∷ aborted
    ∷ out_of_range ∷ unimplemented ∷ internal ∷ unavailable ∷ data_loss ∷ do_not_use ∷ nil

abbrev all_of : List StatusCode → (StatusCode → Bool) → Bool
all_of nil p = true
all_of (c ∷ cs) p = p c && all_of cs p

-- A place for each code.
abbrev index : StatusCode → ℕ
index ok = 0
index cancelled = 1
index unknown = 2
index invalid_argument = 3
index deadline_exceeded = 4
index not_found = 5
index already_exists = 6
index permission_denied = 7
index unauthenticated = 8
index resource_exhausted = 9
index failed_precondition = 10
index aborted = 11
index out_of_range = 12
index unimplemented = 13
index internal = 14
index unavailable = 15
index data_loss = 16
index do_not_use = 17

abbrev nth : List StatusCode → ℕ → StatusCode
nth nil n = ok
nth (c ∷ cs) zero = c
nth (c ∷ cs) (suc n) = nth cs n

abbrev code_at : ℕ → StatusCode
code_at n = nth all_codes n

abbrev start_of : StatusCode → String
start_of c = to_string c <> "("

code_at-index : (c : StatusCode) → code_at (index c) ≡ c
code_at-index ok = refl
code_at-index cancelled = refl
code_at-index unknown = refl
code_at-index invalid_argument = refl
code_at-index deadline_exceeded = refl
code_at-index not_found = refl
code_at-index already_exists = refl
code_at-index permission_denied = refl
code_at-index unauthenticated = refl
code_at-index resource_exhausted = refl
code_at-index failed_precondition = refl
code_at-index aborted = refl
code_at-index out_of_range = refl
code_at-index unimplemented = refl
code_at-index internal = refl
code_at-index unavailable = refl
code_at-index data_loss = refl
code_at-index do_not_use = refl

abbrev has_place : List StatusCode → ℕ → Bool
has_place nil n = false
has_place (d ∷ ds) n = (index d == n) || has_place ds n

all_codes-place : (c : StatusCode) → has_place all_codes (index c) ≡ true
all_codes-place ok = refl
all_codes-place cancelled = refl
all_codes-place unknown = refl
all_codes-place invalid_argument = refl
all_codes-place deadline_exceeded = refl
all_codes-place not_found = refl
all_codes-place already_exists = refl
all_codes-place permission_denied = refl
all_codes-place unauthenticated = refl
all_codes-place resource_exhausted = refl
all_codes-place failed_precondition = refl
all_codes-place aborted = refl
all_codes-place out_of_range = refl
all_codes-place unimplemented = refl
all_codes-place internal = refl
all_codes-place unavailable = refl
all_codes-place data_loss = refl
all_codes-place do_not_use = refl

same_place : (c d : StatusCode) → (index c == index d) ≡ true → c ≡ d
same_place c d h =
    let same : index c ≡ index d = ground (arith, h) in
    sym (code_at-index c) ∙ ap code_at same ∙ code_at-index d

all_of-lookup :
    (ds : List StatusCode) (p : StatusCode → Bool) (c : StatusCode)
    → has_place ds (index c) ≡ true
    → all_of ds p ≡ true
    → p c ≡ true
all_of-lookup nil p c k h = cc
all_of-lookup (d ∷ ds) p c k h = elim (Bool-cases (index d == index c)) [
  | inl y ↦ rw (← same_place d c y) (ground (arith, h))
  | inr n ↦ all_of-lookup ds p c (rw n at k) (ground (arith, h))
]

-- The start of one code begins that of another only if they are the same.
abbrev is_apart : StatusCode → StatusCode → Bool
is_apart c d = not (starts_with (start_of c) (start_of d)) || (index c == index d)

all_apart : all_of all_codes (λ c. all_of all_codes (is_apart c)) ≡ true
unfolding to_string
all_apart = refl

starts_nested : (c d : StatusCode) → IsPrefix (start_of d) (start_of c) → c ≡ d
starts_nested c d k =
    let apart : is_apart c d ≡ true = all_of-lookup all_codes (is_apart c) d (all_codes-place d) (
      all_of-lookup all_codes (λ x. all_of all_codes (is_apart x)) c (all_codes-place c)
        all_apart) in
    let begins : starts_with (start_of c) (start_of d) ≡ true =
      (starts_with_iff (start_of c) (start_of d)).1 k in
    same_place c d (ground (arith, apart, begins))

module _ (number : StatusCode → String) where
  -- What follows the code.
  abbrev tail_of : Status → String
  tail_of s = if is_ok s then "" else ": " <> s.error_message

  print_status-start : (s : Status) → IsPrefix (start_of s.error_code) (print_status number s)
  unfolding print_status print_code
  print_status-start s =
      let name = to_string s.error_code in
      let rest = number s.error_code <> ")" in
      (
        rest <> tail_of s,
        append_assoc name "(" (rest <> tail_of s)
            ∙ ap (λ (x : String). name <> x) (sym (append_assoc "(" rest (tail_of s)))
            ∙ sym (append_assoc name ("(" <> rest) (tail_of s)),
      )

  same_code :
      (s t : Status) → print_status number s ≡ print_status number t → s.error_code ≡ t.error_code
  same_code s t e =
      elim (prefixes_nested (start_of s.error_code) (start_of t.error_code) (print_status number s)
        (print_status-start s) (rw e (print_status-start t))) [
          | inl k ↦ sym (starts_nested t.error_code s.error_code k)
          | inr k ↦ starts_nested s.error_code t.error_code k
        ]

  same_tail :
      (s t : Status)
      → print_status number s ≡ print_status number t
      → s.error_code ≡ t.error_code
      → tail_of s ≡ tail_of t
  unfolding print_status
  same_tail s t e q =
      append_cancel_left (print_code number s.error_code) (tail_of s) (tail_of t)
        (e ∙ ap (λ (c : StatusCode). print_code number c <> tail_of t) (sym q))

  -- Whatever the numbers of the codes, two statuses that are printed alike have the same code, and
  -- unless that is OK also the same message.
  pub print_status-injective :
      (s t : Status)
      → print_status number s ≡ print_status number t
      → (s.error_code ≡ t.error_code) × (is_ok s ≡ false → s.error_message ≡ t.error_message)
  print_status-injective s t e =
      let q = same_code s t e in
      (
        q,
        λ n.
            let m : is_ok t ≡ false = rw (← q) n in
            append_cancel_left ": " s.error_message t.error_message
              (rw (n, m) at (same_tail s t e q)),
      )
