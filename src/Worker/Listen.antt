-- ===== src/Worker/Listen.antt =====
-- `NetworkWorker::listen`: the loop over what `epoll_wait` returns, for all connections of a worker.
-- A `Connection*` is a number, and a connection that was deleted has no session.
pub mod Flow
pub mod Clients
pub mod Hangup
pub mod Runs
use mosss.Common.{
  ℕ, List, [], ◌∷◌, ◌++◌, Bool, true, false, if◌then◌else◌, Result, ok, err, undefined, no_fuel,
  ◌>>=◌, Option, none, some,
}
use mosss.Memory.{update}
use mosss.Connection.{Recv}
use mosss.Worker.Session.{Io, Session}
use mosss.Worker.Events.{on_event}

-- A client is heard: what the calls of the system return while its event is handled.
pub record Occurrence : Type 0 where
  pub conn : ℕ
  pub io : Io
  pub recv : Recv

-- A round of the loop: `is_running()` is false, `epoll_wait` fails, or it returns events, of which
-- `none` has the null pointer.
pub data Round : Type 0 where
  stopped : Round
  wait_failed : Round
  woken : List (Option Occurrence) → Round

abbrev pub Sessions : Type 0
Sessions = ℕ → Option Session

-- The bytes that each event sent, with its connection.
abbrev pub Trace : Type 0
Trace = List (ℕ × List ℕ)

-- `events[i].data.ptr` of a connection that may be deleted.
abbrev pub present : Option Session → Result Session
present none = err undefined
present (some s) = ok s

abbrev pub answered : Option (List ℕ × Session) → List ℕ
answered none = []
answered (some a) = a.0

abbrev pub session_left : Option (List ℕ × Session) → Option Session
session_left none = none
session_left (some a) = some a.1

unfoldable pub handle_event : Occurrence → Sessions → Result (List ℕ × Sessions)
handle_event e sessions = do
  s ← present (sessions e.conn)
  there ← on_event e.io e.recv s
  ok (answered there, update sessions e.conn (session_left there))

-- The inner loop; the Boolean says whether it jumps to `shutdown`.
unfoldable pub batch : List (Option Occurrence) → Sessions → Result (Bool × Trace × Sessions)
batch [] sessions = ok (false, [], sessions)
batch (none ∷ events) sessions = ok (true, [], sessions)
batch (some e ∷ events) sessions = do
  (out, sessions1) ← handle_event e sessions
  (over, outs, sessions2) ← batch events sessions1
  ok (over, (e.conn, out) ∷ outs, sessions2)

unfoldable pub listen : List Round → Sessions → Result (Trace × Sessions)
listen [] sessions = err no_fuel
listen (stopped ∷ rounds) sessions = ok ([], sessions)
listen (wait_failed ∷ rounds) sessions = listen rounds sessions
listen (woken events ∷ rounds) sessions = do
  (over, outs, sessions1) ← batch events sessions
  let rest = do (others, sessions2) ← listen rounds sessions1; ok (outs ++ others, sessions2)
  if over then ok (outs, sessions1) else rest
