-- ===== src/Utils/Logs.antt =====
-- utils/logs.hpp and logs.cpp: a line of the log is a temporary `Log`, to which the parts are written
-- and which may be moved on the way. The line is printed by the destructor. What the constructor
-- writes first, the thread and the time, is an argument.
use Prim.Native.String.{String, ◌++◌ as ◌<>◌}
use mathlib.Core.List.{append-nil}
use text.Mathlib.TextLemmas.{append-nil as join-nil, append_assoc as join_assoc}
use async_sandbox.Prelude.{sym, ◌≡◌, ap, ◌∙◌, Bool, true, false, List, [], ◌∷◌, ◌++◌, if◌then◌else◌}

pub record Log : Type 0 where
  pub out : String
  -- the stream's bad bit, with which it takes no more output
  pub bad : Bool

abbrev pub new_log : String → Log
new_log prefix = record { out = prefix; bad = false }

-- `operator<<`
unfoldable pub insert : Log → String → Log
insert log s = if log.bad then log else record log { out = log.out <> s }

-- The move constructor: the new log, and the one that was moved from.
unfoldable pub move : Log → Log × Log
move log = (log, record log { bad = true })

-- The destructor: the lines that it prints.
unfoldable pub destroy : Log → List String
destroy log = if log.bad then [] else log.out ∷ []

-- What is done with a log until its end.
pub data Use : Type 0 where
  part : String → Use
  moved : Use

-- The lines that a log and all that it is moved to print.
unfoldable pub print : Log → List Use → List String
unfolding insert move destroy
print log [] = destroy log
print log (part s ∷ uses) = print (insert log s) uses
print log (moved ∷ uses) = let (new, old) = move log in print new uses ++ destroy old

abbrev pub text_of : List Use → String
text_of [] = ""
text_of (part s ∷ uses) = s <> text_of uses
text_of (moved ∷ uses) = text_of uses

print_good :
    (uses : List Use) (before : String)
    → print (new_log before) uses ≡ (before <> text_of uses) ∷ []
unfolding print insert move destroy
print_good [] before = ap (λ (s : String). s ∷ []) (sym (join-nil before))
print_good (part s ∷ uses) before =
    print_good uses (before <> s) ∙ ap (λ (t : String). t ∷ []) (join_assoc before s (text_of uses))
print_good (moved ∷ uses) before = append-nil (print (new_log before) uses) ∙ print_good uses before

-- However often a log is moved, and whatever is written to it before and after, it and all that it was
-- moved to print one line, with the constructor's text and then all parts in their order.
print_once :
    (prefix : String) (uses : List Use)
    → print (new_log prefix) uses ≡ (prefix <> text_of uses) ∷ []
print_once prefix uses = print_good uses prefix
