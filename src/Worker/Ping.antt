-- ===== src/Worker/Ping.antt =====
-- `ping_request` and the packet that answers it.
use mosss.Common.{
  ℕ, ◌^◌, ◌≤◌, ◌<◌, ◌≡◌, refl, sym, subst, ◌∙◌, List, [], ◌∷◌, ◌++◌, Result, ok, Option, some,
}
use mosss.Memory.{Memory, Pointer}
use mosss.Bytes.Order.{be_bytes}
use mosss.ReadBuffer.{read_long}
use mosss.ReadBuffer.Stream.{AtSector}
use mosss.ReadBuffer.Numbers.{read_ulong-be_bytes}
use mosss.WriteBuffer.{Iovec, WriteBuffer}
use mosss.WriteBuffer.Invariant.{Inv, room}
use mosss.Clientbound.Pong.{send_pong_response-Ponged}
use mosss.Connection.{handshake_state, status_state}
use mosss.Worker.Session.{Io, Session, wbuf_now, set_state}
use mosss.Worker.Tables.{parsers, parser_at, status, dispatch, call_parser, ping_request_parser}
use mosss.Worker.Dispatch.{dispatch-call_parser}
use mosss.Worker.Handlers.{ping_request}

-- A connection whose buffer for answers holds nothing: `free` bytes of room, and an array of iovecs
-- with an element behind the first one, not empty.
pub record Idle (m : Memory) (w : WriteBuffer) (free : ℕ) : Type 0 where
  pub inv : Inv (record w { heap = m }) [] []
  pub free_le : free ≤ room inv
  pub cursor : w.iov_cursor ≡ 0
  pub slots : 1 < w.iov_size
  pub stale : Iovec
  pub listed : w.iov 1 ≡ some stale
  pub long : 0 < stale.iov_len

-- The answer to a ping, in state `before`; the connection is back in the first state.
pub record Answered (result : Result (List ℕ × Session)) (bytes : List ℕ) : Type 0 where
  pub after : Session
  pub returns : result ≡ ok (bytes, after)
  pub state : after.conn.state ≡ handshake_state
  pub reusable : Inv (wbuf_now after) [] []

ping_request-Answered :
    (i : ℕ) (stop : Pointer) (s : Session) (io : Io) (x : ℕ) (rest : List ℕ)
    (results : List (Option ℕ))
    → x < 2 ^ 64
    → AtSector i stop s.conn.rbuf (be_bytes 8 x ++ rest)
    → Idle s.conn.rbuf.heap s.wbuf 9
    → io 0 ≡ some 10 ∷ results
    → Answered (ping_request io s) (9 ∷ 1 ∷ be_bytes 8 x)
unfolding ping_request
ping_request-Answered i stop s io x rest results small at_sector idle takes =
    let r = read_ulong-be_bytes i stop s.conn.rbuf x rest small at_sector in
    let same : read_long s.conn.rbuf ≡ ok (x, r.after) = unfold read_long in r.returns in
    let now : Idle r.after.heap s.wbuf 9 = subst (λ m. Idle m s.wbuf 9) (sym r.heap) idle in
    let p =
      send_pong_response-Ponged now.inv x results now.stale now.free_le now.cursor now.slots
        now.listed now.long in
    record {
      after = set_state handshake_state (record s {
        wbuf = p.after;
        conn = record s.conn { rbuf = record r.after { heap = p.after.heap } };
      });
      returns = rw (same, takes, p.returns) refl;
      state = unfold set_state in refl;
      reusable = unfold set_state in p.reusable;
    }

-- In the state `STATUS` a packet with the id 1 and the number `x` is answered by the bytes
-- of a packet with the id 1 and the number `x`, and then the connection is in the state
-- `HANDSHAKE` and its buffer for answers can be used again. This is so where the number is in the
-- sector at the cursor, the buffer for answers holds nothing and has room for nine bytes and an
-- element behind the first iovec that is not empty, and the kernel takes the ten bytes at once.
pub dispatch-ping :
    (i : ℕ) (stop : Pointer) (s : Session) (io : Io) (x : ℕ) (rest : List ℕ)
    (results : List (Option ℕ))
    → s.conn.state ≡ status_state
    → x < 2 ^ 64
    → AtSector i stop s.conn.rbuf (be_bytes 8 x ++ rest)
    → Idle s.conn.rbuf.heap s.wbuf 9
    → io 0 ≡ some 10 ∷ results
    → Answered (dispatch 1 io s) (9 ∷ 1 ∷ be_bytes 8 x)
unfolding parser_at parsers status call_parser
dispatch-ping i stop s io x rest results state small at_sector idle takes =
    let a = ping_request-Answered i stop s io x rest results small at_sector idle takes in
    record {
      after = a.after;
      returns = dispatch-call_parser 1 io s status_state ping_request_parser state refl ∙ a.returns;
      state = a.state;
      reusable = a.reusable;
    }
