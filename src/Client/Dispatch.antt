-- ===== src/Client/Dispatch.antt =====
-- Which command a line runs: `Program::Process` of async_grpc/client/main.cpp and the names of the
-- commands.
use Prim.Native.String.{String, ◌++◌ as ◌<>◌}
use text.Mathlib.Text.{starts_with}
use text.Mathlib.TextBridge.{IsPrefix}
use text.Mathlib.TextEquality.{starts_with_iff}
use mathlib.Core.Option.{some-injective}
use text.Mathlib.TextPositions.{starts_with-append}
use async_sandbox.Prelude.{
  List, [] as nil, ◌∷◌, Bool-cases, ◌≡◌, ◌↔◌, ◌⊎◌, inl, inr, refl, sym, ap, ◌∙◌, true, false, some,
}
use async_sandbox.Prelude.Texts.{prefixes_nested}
use async_sandbox.Client.Program.{
  Command, bidirectional_stream_echo, client_stream_echo, nested_echo, noop, server_stream_echo,
  unary_echo, name, process, process_with, handlers,
}

neither : (false ≡ true) ⊎ (false ≡ true) → ⊥
neither (inl p) = cc
neither (inr p) = cc

-- No name begins with another.
nested_names :
    (g h : Command)
    → (starts_with (name g) (name h) ≡ true) ⊎ (starts_with (name h) (name g) ≡ true)
    → g ≡ h
nested_names bidirectional_stream_echo bidirectional_stream_echo p = refl
nested_names bidirectional_stream_echo client_stream_echo p = absurd (neither p)
nested_names bidirectional_stream_echo nested_echo p = absurd (neither p)
nested_names bidirectional_stream_echo noop p = absurd (neither p)
nested_names bidirectional_stream_echo server_stream_echo p = absurd (neither p)
nested_names bidirectional_stream_echo unary_echo p = absurd (neither p)
nested_names client_stream_echo bidirectional_stream_echo p = absurd (neither p)
nested_names client_stream_echo client_stream_echo p = refl
nested_names client_stream_echo nested_echo p = absurd (neither p)
nested_names client_stream_echo noop p = absurd (neither p)
nested_names client_stream_echo server_stream_echo p = absurd (neither p)
nested_names client_stream_echo unary_echo p = absurd (neither p)
nested_names nested_echo bidirectional_stream_echo p = absurd (neither p)
nested_names nested_echo client_stream_echo p = absurd (neither p)
nested_names nested_echo nested_echo p = refl
nested_names nested_echo noop p = absurd (neither p)
nested_names nested_echo server_stream_echo p = absurd (neither p)
nested_names nested_echo unary_echo p = absurd (neither p)
nested_names noop bidirectional_stream_echo p = absurd (neither p)
nested_names noop client_stream_echo p = absurd (neither p)
nested_names noop nested_echo p = absurd (neither p)
nested_names noop noop p = refl
nested_names noop server_stream_echo p = absurd (neither p)
nested_names noop unary_echo p = absurd (neither p)
nested_names server_stream_echo bidirectional_stream_echo p = absurd (neither p)
nested_names server_stream_echo client_stream_echo p = absurd (neither p)
nested_names server_stream_echo nested_echo p = absurd (neither p)
nested_names server_stream_echo noop p = absurd (neither p)
nested_names server_stream_echo server_stream_echo p = refl
nested_names server_stream_echo unary_echo p = absurd (neither p)
nested_names unary_echo bidirectional_stream_echo p = absurd (neither p)
nested_names unary_echo client_stream_echo p = absurd (neither p)
nested_names unary_echo nested_echo p = absurd (neither p)
nested_names unary_echo noop p = absurd (neither p)
nested_names unary_echo server_stream_echo p = absurd (neither p)
nested_names unary_echo unary_echo p = refl

one_match :
    (line : String) (g h : Command)
    → starts_with line (name g) ≡ true
    → starts_with line (name h) ≡ true
    → g ≡ h
one_match line g h p q = nested_names g h (
    swap (
      prefixes_nested (name g) (name h) line ((starts_with_iff line (name g)).0 p)
        ((starts_with_iff line (name h)).0 q)))
  where
    swap :
        IsPrefix (name g) (name h) ⊎ IsPrefix (name h) (name g)
        → (starts_with (name g) (name h) ≡ true) ⊎ (starts_with (name h) (name g) ≡ true)
    swap (inl k) = inr ((starts_with_iff (name h) (name g)).1 k)
    swap (inr k) = inl ((starts_with_iff (name g) (name h)).1 k)

IsAmong : Command → List Command → Type 0
IsAmong h nil = ⊥
IsAmong h (g ∷ gs) = (g ≡ h) ⊎ IsAmong h gs

process_first :
    (hs : List Command) (line : String) (h : Command)
    → IsAmong h hs
    → starts_with line (name h) ≡ true
    → process_with hs line ≡ some h
unfolding process_with IsAmong
process_first nil line h k m = absurd k
process_first (g ∷ gs) line h k m = elim (Bool-cases (starts_with line (name g))) [
  | inl y ↦ rw (y, process_with) (ap some (one_match line g h y m))
  | inr no_match ↦ elim k [
    | inl e ↦ absurd (neither (inl (sym no_match ∙ rw e m)))
    | inr r ↦ rw (no_match, process_with) (process_first gs line h r m)
  ]
]

process_only :
    (hs : List Command) (line : String) (h : Command)
    → process_with hs line ≡ some h
    → starts_with line (name h) ≡ true
unfolding process_with
process_only nil line h p = cc
process_only (g ∷ gs) line h p = elim (Bool-cases (starts_with line (name g))) [
  | inl y ↦ let e : g ≡ h = some-injective _ _ (rw (y, process_with) at p) in rw (← e) y
  | inr no_match ↦ process_only gs line h (rw (no_match, process_with) at p)
]

handlers-IsAmong : (h : Command) → IsAmong h handlers
unfolding IsAmong
handlers-IsAmong bidirectional_stream_echo = inl refl
handlers-IsAmong client_stream_echo = inr (inl refl)
handlers-IsAmong nested_echo = inr (inr (inl refl))
handlers-IsAmong noop = inr (inr (inr (inl refl)))
handlers-IsAmong server_stream_echo = inr (inr (inr (inr (inl refl))))
handlers-IsAmong unary_echo = inr (inr (inr (inr (inr (inl refl)))))

-- A line runs a command exactly when it starts with the command's name: no line starts with two names,
-- so that the order of the handlers does not matter.
pub process_iff :
    (line : String) (h : Command) → (process line ≡ some h) ↔ (starts_with line (name h) ≡ true)
unfolding process
process_iff line h =
    (process_only handlers line h, process_first handlers line h (handlers-IsAmong h))

-- The name of a command, and whatever follows it, runs the command.
process-name : (h : Command) (rest : String) → process (name h <> rest) ≡ some h
process-name h rest = (process_iff (name h <> rest) h).1 (starts_with-append (name h) rest)
