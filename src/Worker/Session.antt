-- ===== src/Worker/Session.antt =====
-- What a handler of network/worker.cpp works on: the members of a Connection, the calls on its two
-- buffers, and the strings that a handler makes.
use mosss.Common.{ℕ, List, Result, ok, ◌>>=◌, Option, some, length}
use mosss.Memory.{at, Memory, place}
use mosss.ReadBuffer.{ReadBuffer, Uuid}
use mosss.WriteBuffer.{WriteBuffer}
use mosss.Clientbound.{Text}
use mosss.Connection.{Connection, State}

pub record Player : Type 0 where
  pub uuid : Uuid
  pub username : List ℕ

pub record Session : Type 0 where
  pub conn : Connection
  pub wbuf : WriteBuffer
  pub handle : Option Player

abbrev pub Io : Type 0
Io = ℕ → List (Option ℕ)

abbrev pub PacketParser : Type 0
PacketParser = Io → Session → Result (List ℕ × Session)

-- A call on `conn->rbuf`.
abbrev pub on_rbuf :
    {A : Type 0} → (ReadBuffer → Result (A × ReadBuffer)) → Session → Result (A × Session)
on_rbuf call s = do
  (x, r) ← call s.conn.rbuf
  ok (x, record s { conn = record s.conn { rbuf = r } })

-- `conn->wbuf` with the heap as it is now.
abbrev pub wbuf_now : Session → WriteBuffer
wbuf_now s = record s.wbuf { heap = s.conn.rbuf.heap }

-- A call that sends a packet.
abbrev pub on_wbuf :
    (WriteBuffer → Result (List ℕ × WriteBuffer)) → Session → Result (List ℕ × Session)
on_wbuf call s = do
  (taken, w) ← call (wbuf_now s)
  ok (
    taken,
    record s { wbuf = w; conn = record s.conn { rbuf = record s.conn.rbuf { heap = w.heap } } },
  )

abbrev pub with_heap : Session → Memory → Session
with_heap s m = record s { conn = record s.conn { rbuf = record s.conn.rbuf { heap = m } } }

-- A string with the characters `xs`.
abbrev pub new_string : List ℕ → Session → Session
new_string xs s = with_heap s (place s.conn.rbuf.heap xs)

abbrev pub string_at : List ℕ → Session → Text
string_at xs s = record { start = at s.conn.rbuf.heap.next 0; size = length xs }

unfoldable pub set_state : State → Session → Session
set_state state s = record s { conn = record s.conn { state = state } }

-- The old `handle` is not deleted.
unfoldable pub init_player : List ℕ → Uuid → Session → Session
init_player username uuid s = record s {
  handle = some (record { uuid = uuid; username = username });
}
