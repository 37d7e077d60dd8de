-- ===== src/Worker/Socket.antt =====
-- A ping from the events to the answer.
use mosss.Common.{
  ℕ, ◌^◌, ◌<◌, ◌≡◌, ◌≢◌, refl, sym, ap, subst, ◌∙◌, List, [], ◌∷◌, ◌++◌, arith, Result, ok, err,
  undefined, none, length, length-append, append_assoc, ◌-◌, ◌+◌, Option, some, true, false, ◌>>=◌,
  append-nil, All, All-front,
}
use mosss.Memory.{null}
use mosss.Bytes.Order.{IsByte, be_bytes, be_bytes-IsByte, length-be_bytes}
use mosss.Varint.{decode}
use mosss.ReadBuffer.{Ivec, nth_ivec}
use mosss.ReadBuffer.Stream.{Sector, AtSector}
use mosss.Connection.{Connection, status_state, received, process, ready, Recv}
use mosss.Connection.Receive.{Fresh}
use mosss.Connection.Split.{joined}
use mosss.Connection.Partial.{Partial, ready-Partial, process-Partial, resolve_length-Step}
use mosss.Worker.Session.{Io, Session}
use mosss.Worker.Events.{parse, on_event}
use mosss.Worker.Ping.{Idle}
use mosss.Worker.Kept.{Idle-Frame}
use mosss.Worker.Parsed.{Served, parse-ping}

-- Outcome of an event at a connection that has to be there.
abbrev pub served : Option (List ℕ × Session) → Result (List ℕ × Session)
served none = err undefined
served (some a) = ok a

-- One event after the other; the bytes of all answers.
abbrev pub serve : Io → List (List ℕ) → Session → Result (List ℕ × Session)
serve io [] s = ok ([], s)
serve io (xs ∷ events) s = do
  there ← on_event io (received xs) s
  (taken, s1) ← served there
  (others, s2) ← serve io events s1
  ok (taken ++ others, s2)

on_event-ready :
    (s : Session) (io : Io) (r : Recv) (c : Connection) (a : List ℕ × Session)
    → process r s.conn ≡ ok (some c)
    → ready c ≡ true
    → parse io (record s { conn = c }) ≡ ok a
    → on_event io r s ≡ ok (some a)
unfolding on_event
on_event-ready s io r c a there complete parsed = rw (there, complete, parsed) refl

pub on_event-waits :
    (s : Session) (io : Io) (r : Recv) (c : Connection)
    → process r s.conn ≡ ok (some c)
    → ready c ≡ false
    → on_event io r s ≡ ok (some ([], record s { conn = c }))
unfolding on_event
on_event-waits s io r c there incomplete = rw (there, incomplete) refl

serve-waits :
    (xs : List ℕ) (events : List (List ℕ)) (io : Io) (s s1 : Session) (a : List ℕ × Session)
    → on_event io (received xs) s ≡ ok (some ([], s1))
    → serve io events s1 ≡ ok a
    → serve io (xs ∷ events) s ≡ ok a
serve-waits xs events io s s1 a waits rest = rw (waits, rest) refl

pub there_still :
    (r : Result (Option Connection)) (c : Connection)
    → (r >>= λ o. elim o [ none ↦ err undefined | some c1 ↦ ok c1 ]) ≡ ok c
    → r ≡ ok (some c)
there_still (ok none) c h = absurd cc
there_still (ok (some d)) c h = cc
there_still (err e) c h = absurd cc

-- The events of a ping from one on that leaves `c`, with the bytes `got` of the payload.
serve_from :
    (events : List (List ℕ)) (s : Session) (io : Io) (x : ℕ) (results : List (Option ℕ))
    (xs got : List ℕ) (c : Connection) (m : ℕ) (p : Partial c got m)
    (idle : Idle c.rbuf.heap s.wbuf 9)
    → process (received xs) s.conn ≡ ok (some c)
    → got ++ joined events ≡ 1 ∷ be_bytes 8 x
    → m ≡ length (joined events)
    → All (λ ys. 0 < length ys) events
    → c.state ≡ status_state
    → c.rbuf.cursor_index ≡ 0
    → c.rbuf.iv1.buf ≡ null
    → idle.inv.layout.block ≢ p.sector.block
    → x < 2 ^ 64
    → io 0 ≡ some 10 ∷ results
    → Served (serve io (xs ∷ events) s) (9 ∷ 1 ∷ be_bytes 8 x)
serve_from [] s io x results xs got c m p idle there whole none_missing filled state first
      no_secondary apart small takes =
    let got_all : got ≡ 1 ∷ be_bytes 8 x = sym (append-nil got) ∙ whole in
    let complete : ready c ≡ true = ready-Partial c got m p ∙ ground arith in
    let at_sector : AtSector 0 c.rbuf.iv0.end c.rbuf (1 ∷ be_bytes 8 x) = record {
      iv = c.rbuf.iv0;
      index = first;
      at_cursor = ap (λ n. nth_ivec n c.rbuf) first;
      stops = refl;
      sector = subst (Sector c.rbuf.heap c.rbuf.iv0) got_all p.sector;
    } in
    let a =
      parse-ping (record s { conn = c }) io x m results c.rbuf.iv0.end state p.allowed no_secondary
        small at_sector idle takes in
    let bytes = 9 ∷ 1 ∷ be_bytes 8 x in
    record {
      after = a.after;
      returns =
          rw
            (
              on_event-ready s io (received xs) c (bytes, a.after) there complete a.returns,
              append-nil (be_bytes 8 x),
            )
            refl;
      state = a.state;
      events = a.events;
      allows = a.allows;
      reusable = a.reusable;
    }
serve_from (ys ∷ events) s io x results xs got c m p idle there whole missing filled state first
      no_secondary apart small takes =
    let both = length-append ys (joined events) in
    let step = process-Partial c got ys m p (omega (arith, both)) in
    let s1 = record s { conn = c } in
    let incomplete : ready c ≡ false = ready-Partial c got m p ∙ ground (arith, both, filled.0) in
    let (kept, same) = Idle-Frame idle apart step.frame in
    let rest =
      serve_from events s1 io x results ys (got ++ ys) step.after (m - length ys) step.partial kept
        (there_still (process (received ys) c) step.after step.returns)
        (append_assoc got ys (joined events) ∙ whole) (omega (arith, both)) filled.1
        (step.state ∙ state) (step.index ∙ first)
        (ap (λ (v : Ivec). v.buf) step.second ∙ no_secondary)
        (λ e. apart (sym same ∙ e ∙ step.block)) small takes in
    record {
      after = rest.after;
      returns =
          serve-waits xs (ys ∷ events) io s s1 (9 ∷ 1 ∷ be_bytes 8 x, rest.after)
            (on_event-waits s io (received xs) c there incomplete) rest.returns;
      state = rest.state;
      events = rest.events;
      allows = rest.allows;
      reusable = rest.reusable;
    }

ping_length : (x : ℕ) → length (9 ∷ 1 ∷ be_bytes 8 x) ≡ 10
ping_length x = omega (arith, length-be_bytes 8 x)

ping_bytes-IsByte : (x : ℕ) → All IsByte (9 ∷ 1 ∷ be_bytes 8 x)
ping_bytes-IsByte x = (omega arith, (omega arith, be_bytes-IsByte 8 x))

decode_nine : (y : ℕ) (start : List ℕ) → y ≡ 9 → decode 4 (y ∷ start) ≡ ok (9, start)
unfolding decode
decode_nine y start h = rw h refl

-- Where the events at a connection that waits for a packet, in the state `STATUS`, are the bytes of
-- a ping packet with the 64-bit number `x`, in one piece or more, none of them empty, the same
-- bytes are sent, once, and then the connection is in the state `HANDSHAKE` and waits for a packet,
-- with room for 1024 bytes, and its buffer for answers can be used again. This is so where the
-- connection has no secondary buffer and reads from the primary one, the buffer for answers lies in
-- another block, holds nothing and has room for nine bytes and an element behind the first iovec
-- that is not empty, and the kernel takes the ten bytes at once.
pub serve-ping :
    (events : List (List ℕ)) (s : Session) (b : ℕ) (io : Io) (x : ℕ) (results : List (Option ℕ))
    (idle : Idle s.conn.rbuf.heap s.wbuf 9)
    → Fresh s.conn b
    → s.conn.state ≡ status_state
    → s.conn.rbuf.cursor_index ≡ 0
    → s.conn.rbuf.iv1.buf ≡ null
    → idle.inv.layout.block ≢ b
    → x < 2 ^ 64
    → joined events ≡ 9 ∷ 1 ∷ be_bytes 8 x
    → All (λ ys. 0 < length ys) events
    → io 0 ≡ some 10 ∷ results
    → Served (serve io events s) (9 ∷ 1 ∷ be_bytes 8 x)
serve-ping [] s b io x results idle fresh state first no_secondary apart small whole filled takes =
    absurd cc
serve-ping ([] ∷ events) s b io x results idle fresh state first no_secondary apart small whole
      filled takes =
    absurd (omega (arith, filled.0))
serve-ping ((y ∷ start) ∷ events) s b io x results idle fresh state first no_secondary apart small
      whole filled takes =
    let nine : y ≡ 9 = cc in
    let payload : start ++ joined events ≡ 1 ∷ be_bytes 8 x = cc in
    let lengths : length start + length (joined events) ≡ 9 =
      sym (length-append start (joined events))
      ∙ ap length payload
      ∙ omega (arith, ping_length x) in
    let bytes : All IsByte (y ∷ start) =
      All-front IsByte (y ∷ start) (joined events)
        (subst (All IsByte) (sym whole) (ping_bytes-IsByte x)) in
    let step =
      resolve_length-Step s.conn b (y ∷ start) start 9 fresh bytes (decode_nine y start nine)
        (omega arith) (omega (arith, lengths)) (omega (arith, lengths)) in
    let (kept, same) = Idle-Frame idle apart step.frame in
    serve_from events s io x results (y ∷ start) start step.after (9 - length start) step.partial
      kept (there_still (process (received (y ∷ start)) s.conn) step.after step.returns) payload
      (omega (arith, lengths)) filled.1 (step.state ∙ state) (step.index ∙ first)
      (ap (λ (v : Ivec). v.buf) step.second ∙ no_secondary) (λ e. apart (sym same ∙ e ∙ step.block))
      small takes
