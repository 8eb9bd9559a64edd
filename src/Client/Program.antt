-- ===== src/Client/Program.antt =====
-- The commands of async_grpc/client/main.cpp. `m_handlers` is a map from the names of the commands, in
-- the order of their texts.
use Prim.Native.String.{String}
use text.Mathlib.Text.{starts_with, ◌==◌ as str_eq}
use async_sandbox.Prelude.{Option, none, some, List, [], ◌∷◌, if◌then◌else◌}

pub data Command : Type 0 where
  bidirectional_stream_echo client_stream_echo nested_echo noop server_stream_echo unary_echo :
      Command

abbrev pub name : Command → String
name bidirectional_stream_echo = "BidirectionalStreamEcho"
name client_stream_echo = "ClientStreamEcho"
name nested_echo = "NestedEcho"
name noop = "Noop"
name server_stream_echo = "ServerStreamEcho"
name unary_echo = "UnaryEcho"

abbrev pub handlers : List Command
handlers =
    bidirectional_stream_echo ∷ client_stream_echo ∷ nested_echo ∷ noop ∷ server_stream_echo
    ∷ unary_echo ∷ []

-- `Process`: the first handler whose name the line starts with, if any
unfoldable pub process_with : List Command → String → Option Command
process_with [] line = none
process_with (h ∷ hs) line = if starts_with line (name h) then some h else process_with hs line

unfoldable pub process : String → Option Command
unfolding process_with
process line = process_with handlers line

-- A line of the program's input.
pub data Reaction : Type 0 where
  quits : Reaction
  helps : Reaction
  spawns : Command → Reaction
  unknown_command : Reaction

abbrev pub processed : Option Command → Reaction
processed none = unknown_command
processed (some h) = spawns h

unfoldable pub react : String → Reaction
unfolding process
react line =
    if str_eq line "quit"
    then quits
    else if str_eq line "help"
    then helps
    else processed (process line)

-- The lines of the input up to "quit": what the program does with them.
unfoldable pub main_loop : List String → List Reaction
unfolding react
main_loop [] = []
main_loop (line ∷ lines) =
    let rest = main_loop lines in elim (react line) [ quits ↦ [] | r ↦ r ∷ rest ]
