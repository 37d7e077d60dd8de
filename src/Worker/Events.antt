-- ===== src/Worker/Events.antt =====
-- The body of the loop of `NetworkWorker::listen`.
use mosss.Common.{
  ℕ, List, [], if◌then◌else◌, Result, ok, err, undefined, malformed_varint, buffer_overflow,
  length_error, no_fuel, terminated, blocked, system_error, ◌>>=◌, Option, none, some,
}
use mosss.ReadBuffer.{read_char}
use mosss.Connection.{Connection, Recv, process, ready, reset}
use mosss.Worker.Session.{Session, Io, PacketParser, on_rbuf}
use mosss.Worker.Tables.{dispatch}

-- What the loop does with a packet that is ready.
unfoldable pub parse : PacketParser
parse io s = do
  (packet_id, s1) ← on_rbuf read_char s
  (taken, s2) ← dispatch packet_id io s1
  c ← reset s2.conn
  ok (taken, record s2 { conn = c })

-- `conn` after `process_events`, which may have deleted it: then `conn->ready()` reads memory that was
-- freed, and this is undefined.
abbrev pub still_there : Option Connection → Result Connection
still_there none = err undefined
still_there (some c) = ok c

-- Outcome of an event: `none` once `disconnect` has deleted the connection.
abbrev pub catching : Result (List ℕ × Session) → Result (Option (List ℕ × Session))
catching (ok a) = ok (some a)
catching (err malformed_varint) = ok none
catching (err buffer_overflow) = ok none
catching (err undefined) = err undefined
catching (err length_error) = err length_error
catching (err no_fuel) = err no_fuel
catching (err terminated) = err terminated
catching (err blocked) = err blocked
catching (err system_error) = err system_error

-- The `try` block of `listen` for the connection of an event, and its handlers.
unfoldable pub on_event : Io → Recv → Session → Result (Option (List ℕ × Session))
unfolding parse
on_event io r s = catching (do
  there ← process r s.conn
  c ← still_there there
  let s1 = record s { conn = c }
  if ready c then parse io s1 else ok ([], s1))
