-- ===== src/Client/Bidirectional/Sessions.antt =====
-- `Program::BidirectionalStreamEcho` of async_grpc/client/main.cpp with its read subroutine beside it:
-- what the two wait for, and how each event of the completion queue moves them on. The events come in
-- any order in which they can occur; one that cannot is `none`.
pub mod Agreement
pub mod Ends
pub mod Fitting
use Prim.Native.String.{String}
use async_sandbox.Prelude.{Bool, true, false, Option, none, some, List, [], ◌∷◌, ◌++◌, ◌>>=◌}
use async_sandbox.Client.Bidirectional.{Step, steps, End, not_started, aborted, finished}

-- What the handler waits for: the start of the call, the first of the steps that are left, or its
-- subroutine; or it has ended.
pub data HandlerAt : Type 0 where
  starting : HandlerAt
  at_steps : List Step → HandlerAt
  awaiting : HandlerAt
  ended : End → HandlerAt

-- The read subroutine waits for a read, or has left its loop. Without a subroutine it is absent.
pub data ReaderAt : Type 0 where
  absent reading left : ReaderAt

pub record Session : Type 0 where
  pub handler : HandlerAt
  pub reader : ReaderAt
  -- `context.TryCancel()` was called
  pub cancelled : Bool
  -- the responses that the subroutine has logged
  pub received : List String

abbrev pub new_session : Session
new_session = record { handler = starting; reader = absent; cancelled = false; received = [] }

-- The handler returns, or the program aborts: in both cases the subroutine is gone.
abbrev pub end_with : End → Session → Session
end_with e s = record s { handler = ended e; reader = absent }

-- `context.TryCancel()`, and `co_await std::move(readTask)`, which does not wait for a subroutine that
-- has left its loop.
abbrev pub await_reader : ReaderAt → Session → Session
await_reader left s = record (end_with finished s) { cancelled = true }
await_reader r s = record s { handler = awaiting; cancelled = true }

-- The steps that are left.
unfoldable pub go_on : List Step → Session → Session
go_on [] s = await_reader s.reader s
go_on (x ∷ xs) s = record s { handler = at_steps (x ∷ xs) }

-- The call is started, and then the subroutine, which stands at its first read.
unfoldable pub on_started : Bool → HandlerAt → Session → Option Session
unfolding go_on
on_started true starting s = some (go_on steps (record s { reader = reading }))
on_started false starting s = some (end_with not_started s)
on_started ok _ s = none

-- A step that does not work: `co_return` destroys the subroutine's task, whose promise is still there.
unfoldable pub on_step : Bool → HandlerAt → Session → Option Session
unfolding go_on
on_step true (at_steps (x ∷ xs)) s = some (go_on xs s)
on_step false (at_steps (x ∷ xs)) s = some (end_with aborted s)
on_step ok _ s = none

-- The subroutine has left its loop, and resumes the handler if that awaits it.
abbrev pub reader_left : HandlerAt → Session → Session
reader_left awaiting s = end_with finished s
reader_left _ s = record s { reader = left }

unfoldable pub on_read : Option String → ReaderAt → Session → Option Session
on_read (some response) reading s = some (record s { received = s.received ++ response ∷ [] })
on_read none reading s = some (reader_left s.handler s)
on_read r _ s = none

pub data Event : Type 0 where
  started step_done : Bool → Event
  -- a read with its response, or one that gives false
  read_done : Option String → Event

unfoldable pub handle : Session → Event → Option Session
unfolding on_started on_step on_read
handle s (started ok) = on_started ok s.handler s
handle s (step_done ok) = on_step ok s.handler s
handle s (read_done r) = on_read r s.reader s

unfoldable pub run : Session → List Event → Option Session
unfolding handle
run s [] = some s
run s (e ∷ es) = do s₁ ← handle s e; run s₁ es

-- What the operations of the handler gave.
abbrev pub flags_of : List Event → List Bool
flags_of [] = []
flags_of (started ok ∷ es) = ok ∷ flags_of es
flags_of (step_done ok ∷ es) = ok ∷ flags_of es
flags_of (read_done r ∷ es) = flags_of es

-- The responses of the reads.
abbrev pub responses_of : List Event → List String
responses_of [] = []
responses_of (read_done (some r) ∷ es) = r ∷ responses_of es
responses_of (e ∷ es) = responses_of es
