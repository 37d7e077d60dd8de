-- ===== src/Worker/Parsed.antt =====
-- A ping that is in the buffer: its id, the handler, the answer and `reset`.
use mosss.Common.{
  ℕ, ◌^◌, ◌<◌, ◌≡◌, refl, sym, ap, subst, ◌∙◌, List, [], ◌∷◌, ◌++◌, Result, ok, Option, some, false,
  append-nil,
}
use mosss.Memory.{Pointer, null, delete}
use mosss.Bytes.Order.{be_bytes}
use mosss.ReadBuffer.{Ivec, ReadBuffer, feed}
use mosss.ReadBuffer.Stream.{AtSector, read_char-AtSector, read_char-second}
use mosss.WriteBuffer.Invariant.{Inv}
use mosss.Connection.{Connection, pos, resolve_length_handler, handshake_state, status_state, reset}
use mosss.Worker.Session.{Io, Session, wbuf_now}
use mosss.Worker.Tables.{parsers, parser_at, status, call_parser, ping_request_parser}
use mosss.Worker.Dispatch.{dispatch-call_parser}
use mosss.Worker.Events.{parse}
use mosss.Worker.Ping.{Idle, dispatch-ping}
use mosss.Worker.Kept.{ping_request-keeps}

-- The read buffer that waits for a packet.
abbrev fed : ReadBuffer → Pointer → ReadBuffer
fed r buffer = record r {
  iv0 = record { buf = buffer; end = buffer };
  cursor_index = 0;
  pos = 0;
  packet_length = 0;
  sizeof_length = 0;
}

-- The connection that waits for one.
abbrev waiting : Connection → Connection
waiting c = record c {
  rbuf = fed c.rbuf c.primary;
  at_secondary = false;
  bytes_allowed = pos 1024;
  process_events = resolve_length_handler;
}

-- `reset` after exactly one packet.
reset_exact :
    (c : Connection) (n : ℕ)
    → c.bytes_allowed ≡ pos n
    → c.rbuf.iv1.buf ≡ null
    → reset c ≡ ok (waiting c)
unfolding reset feed delete
reset_exact c n exact no_secondary = rw (exact, no_secondary) refl

-- `bytes` were sent, and the connection, in the state `HANDSHAKE`, waits for a packet.
pub record Served (result : Result (List ℕ × Session)) (bytes : List ℕ) : Type 0 where
  pub after : Session
  pub returns : result ≡ ok (bytes, after)
  pub state : after.conn.state ≡ handshake_state
  pub events : after.conn.process_events ≡ resolve_length_handler
  pub allows : after.conn.bytes_allowed ≡ pos 1024
  pub reusable : Inv (wbuf_now after) [] []

pub parse-ping :
    (s : Session) (io : Io) (x n : ℕ) (results : List (Option ℕ)) (stop : Pointer)
    → s.conn.state ≡ status_state
    → s.conn.bytes_allowed ≡ pos n
    → s.conn.rbuf.iv1.buf ≡ null
    → x < 2 ^ 64
    → AtSector 0 stop s.conn.rbuf (1 ∷ be_bytes 8 x)
    → Idle s.conn.rbuf.heap s.wbuf 9
    → io 0 ≡ some 10 ∷ results
    → Served (parse io s) (9 ∷ 1 ∷ be_bytes 8 x)
unfolding parse
parse-ping s io x n results stop state exact no_secondary small at_sector idle takes =
    let r = read_char-AtSector 0 stop s.conn.rbuf 1 (be_bytes 8 x) at_sector in
    let s1 = record s { conn = record s.conn { rbuf = r.after } } in
    let view : AtSector 0 stop r.after (be_bytes 8 x ++ []) =
      subst (AtSector 0 stop r.after) (sym (append-nil (be_bytes 8 x))) r.view in
    let a =
      dispatch-ping 0 stop s1 io x [] results state small view
        (subst (λ m. Idle m s.wbuf 9) (sym r.heap) idle) takes in
    let called =
      sym (
        dispatch-call_parser 1 io s1 status_state ping_request_parser state
          (unfold parser_at in unfold parsers in unfold status in refl))
      ∙ a.returns in
    let (second1, allowed1) =
      ping_request-keeps stop s1 io x [] (9 ∷ 1 ∷ be_bytes 8 x, a.after) view
        (unfold call_parser in called) in
    let untouched =
      read_char-second stop s.conn.rbuf 1 1 (be_bytes 8 x) r.after at_sector r.returns in
    let null_still : a.after.conn.rbuf.iv1.buf ≡ null =
      ap (λ (v : Ivec). v.buf) (second1 ∙ untouched) ∙ no_secondary in
    let last = reset_exact a.after.conn n (allowed1 ∙ exact) null_still in
    record {
      after = record a.after { conn = waiting a.after.conn };
      returns = rw (r.returns, a.returns, last) refl;
      state = a.state;
      events = refl;
      allows = refl;
      reusable = a.reusable;
    }
