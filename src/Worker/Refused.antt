-- ===== src/Worker/Refused.antt =====
-- Packets that close the connection.
use mosss.Common.{
  ℕ, ◌≤◌, ◌≡◌, ◌∙◌, ap, refl, arith, List, length, ok, err, malformed_varint, none, All,
}
use mosss.Bytes.Order.{IsByte}
use mosss.Memory.{at}
use mosss.Varint.{decode}
use mosss.ReadBuffer.Waits.{Progress}
use mosss.ReadBuffer.Malformed.{read_length-malformed}
use mosss.Connection.{Connection, received, resolve_length, process, run_handler}
use mosss.Connection.Receive.{Fresh, take_in-Fresh}
use mosss.Worker.Session.{Io, Session}
use mosss.Worker.Events.{on_event}

resolve_length-malformed :
    (c : Connection) (b : ℕ) (bytes : List ℕ)
    → Fresh c b
    → All IsByte bytes
    → length bytes ≤ 1024
    → decode 4 bytes ≡ err malformed_varint
    → resolve_length (received bytes) c ≡ err malformed_varint
unfolding resolve_length
resolve_length-malformed c b bytes f hb few d =
    let (m, took, sector, frame) = take_in-Fresh c b bytes f few in
    let r = record c.rbuf { heap = m; iv0 = record c.rbuf.iv0 { end = at b (length bytes) } } in
    let start : Progress 0 r = record {
      pos = f.position;
      small = rw (f.packet_length, f.position) (omega arith);
    } in
    rw (took, read_length-malformed 0 r bytes start (omega arith) hb d sector) refl

-- Where the first bytes of a packet are no length, the connection is disconnected.
pub on_event-malformed :
    (io : Io) (s : Session) (b : ℕ) (bytes : List ℕ)
    → Fresh s.conn b
    → All IsByte bytes
    → length bytes ≤ 1024
    → decode 4 bytes ≡ err malformed_varint
    → on_event io (received bytes) s ≡ ok none
unfolding on_event
on_event-malformed io s b bytes f hb few d =
    let closes : process (received bytes) s.conn ≡ err malformed_varint =
      unfold process in
      ap (λ h. run_handler h (received bytes) s.conn) f.events
      ∙ resolve_length-malformed s.conn b bytes f hb few d in
    rw closes refl
