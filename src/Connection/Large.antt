-- ===== src/Connection/Large.antt =====
-- A packet that does not fit into the primary buffer: `resolve_length`, then
-- `transition_to_secondary`, then `copy_to_buffer`.
use mosss.Common.{
  ℕ, ◌+◌, ◌-◌, ◌*◌, ◌^◌, ◌≤◌, ◌<◌, ◌≡◌, refl, sym, ap, subst, ◌∙◌, List, length, arith, ok, some,
  false, true, ltb, All, ◌&&◌, ◌==◌,
}
use mosss.Memory.{at, Memory}
use mosss.Memory.Holds.{Frame, Room, Holds}
use mosss.Bytes.Order.{IsByte}
use mosss.Varint.{decode}
use mosss.ReadBuffer.{ReadBuffer, read_length, total_packet_length, minus_one}
use mosss.ReadBuffer.Stream.{Sector, Stream, primary}
use mosss.ReadBuffer.Waits.{Progress}
use mosss.ReadBuffer.Resume.{read_length-decode}
use mosss.Connection.{
  Connection, pos, received, transition_to_secondary_handler, process, run_handler, resolve_length,
  take_in, ready,
}
use mosss.Connection.Receive.{Fresh, take_in-Fresh, fresh_sub}
use mosss.Connection.Partial.{process_event, same_at}

-- The connection has the bytes `xs` of a packet in block `b`, which has room for `missing` more, and
-- `beyond` bytes of the packet come after those.
pub record Filling (c : Connection) (b : ℕ) (xs : List ℕ) (missing beyond : ℕ) : Type 0 where
  pub first : c.at_secondary ≡ false
  pub allowed : c.bytes_allowed ≡ pos missing
  pub events : c.process_events ≡ transition_to_secondary_handler
  pub index : c.rbuf.cursor_index ≡ 0
  pub offset : ℕ
  pub buf : c.rbuf.iv0.buf ≡ at b offset
  pub end : c.rbuf.iv0.end ≡ at b (offset + length xs)
  pub holds : Holds c.rbuf.heap (at b offset) xs
  pub whole : offset + length xs + missing ≡ 1024
  pub room : Room c.rbuf.heap b 0 1024
  pub total : total_packet_length c.rbuf ≡ ok (1024 + beyond)
  pub small : 1024 + beyond < 2 ^ 31
  pub known : b < c.rbuf.heap.next

pub Filling-Sector :
    (c : Connection) (b : ℕ) (xs : List ℕ) (missing beyond : ℕ)
    → Filling c b xs missing beyond
    → Sector c.rbuf.heap c.rbuf.iv0 xs
Filling-Sector c b xs missing beyond f = record {
  block = b;
  offset = f.offset;
  buf = f.buf;
  end = f.end;
  fits = omega (arith, f.whole);
  holds = f.holds;
}

pub Room-Frame :
    {b d lo hi n : ℕ} {m m' : Memory} → Frame b lo hi m m' → Room m d 0 n → Room m' d 0 n
Room-Frame {b} {d} frame r = record {
  alive = frame.alive d ∙ r.alive;
  fits = omega (arith, frame.size d, r.fits);
}

total_known :
    (r : ReadBuffer) (n k : ℕ)
    → r.packet_length ≡ n
    → r.sizeof_length ≡ k
    → n + k < 2 ^ 31
    → total_packet_length r ≡ ok (n + k)
unfolding total_packet_length
total_known r n k p q h = rw (p, q) (ground arith)

resolved_large :
    (c : Connection) (bytes : List ℕ) (r1 r2 : ReadBuffer) (n k : ℕ)
    → take_in bytes c ≡ ok (record c { rbuf = r1 })
    → read_length r1 ≡ ok (n, r2)
    → c.bytes_allowed ≡ pos 1024
    → length bytes ≤ 1024
    → 1024 < n + k
    → n < 2 ^ 31
    → k ≤ 1024
    → r2.sizeof_length ≡ k
    → resolve_length (received bytes) c
      ≡ ok (
          some (record c {
            rbuf = r2;
            bytes_allowed = pos (1024 - length bytes);
            process_events = transition_to_secondary_handler;
          }))
unfolding resolve_length
resolved_large c bytes r1 r2 n k took read allowed few large small short size =
    let known : (n == minus_one) ≡ false = ground arith in
    let does_not_fit : (ltb n (2 ^ 31) && ltb (1024 - r2.sizeof_length) n) ≡ true =
      ground (arith, size) in
    rw (took, read, known, does_not_fit, allowed, fresh_sub (length bytes) few) refl

-- `resolve_length` of a packet that does not fit.
pub record Resolved (c : Connection) (b : ℕ) (bytes rest : List ℕ) (beyond : ℕ) : Type 0 where
  pub after : Connection
  pub returns : process_event bytes c ≡ ok after
  pub filling : Filling after b rest (1024 - length bytes) beyond
  pub state : after.state ≡ c.state

pub resolve_length-Filling :
    (c : Connection) (b : ℕ) (bytes rest : List ℕ) (n beyond : ℕ)
    → Fresh c b
    → c.rbuf.cursor_index ≡ 0
    → b < c.rbuf.heap.next
    → All IsByte bytes
    → decode 4 bytes ≡ ok (n, rest)
    → length bytes ≤ 1024
    → length rest ≤ length bytes
    → n + (length bytes - length rest) ≡ 1024 + beyond
    → 0 < beyond
    → 1024 + beyond < 2 ^ 31
    → Resolved c b bytes rest beyond
unfolding process
resolve_length-Filling c b bytes rest n beyond f begin known hb d few shorter large more small =
    let (m, took, sector, frame) = take_in-Fresh c b bytes f few in
    let k = length bytes - length rest in
    let r1 = record c.rbuf { heap = m; iv0 = record c.rbuf.iv0 { end = at b (length bytes) } } in
    let start : Progress 0 r1 = record {
      pos = f.position ∙ omega arith;
      small = rw (f.packet_length, f.position) (omega arith);
    } in
    let read = read_length-decode 0 r1 n bytes rest start (omega arith) hb d sector in
    let value : c.rbuf.packet_length + n * 2 ^ c.rbuf.pos ≡ n =
      rw (f.packet_length, f.position) (omega arith) in
    let size : read.after.sizeof_length ≡ k = omega (arith, read.sizeof_length, f.sizeof_length) in
    let after : Connection = record c {
      rbuf = read.after;
      bytes_allowed = pos (1024 - length bytes);
      process_events = transition_to_secondary_handler;
    } in
    let s = read.sector in
    let ends : at s.block (s.offset + length rest) ≡ at b (length bytes) = sym s.end ∙ read.stops in
    let block : s.block ≡ b = (same_at ends).0 in
    let offset : s.offset + length rest ≡ length bytes = (same_at ends).1 in
    let kept : Frame b 0 (0 + length bytes) c.rbuf.heap read.after.heap =
      subst (λ h. Frame b 0 (0 + length bytes) c.rbuf.heap h) (sym read.heap) frame in
    let runs =
      ap (λ h. run_handler h (received bytes) c) f.events
      ∙ resolved_large c bytes r1 read.after n k took
          (read.returns ∙ ap (λ v. ok (v, read.after)) value) f.allowed few (omega arith)
          (omega arith) (omega arith) size in
    record {
      after = after;
      returns = rw runs refl;
      filling = record {
        first = f.first;
        allowed = refl;
        events = refl;
        index = read.cursor_index ∙ begin;
        offset = s.offset;
        buf = s.buf ∙ ap (λ x. at x s.offset) block;
        end = read.stops ∙ ap (at b) (sym offset);
        holds = subst (λ x. Holds read.after.heap (at x s.offset) rest) block s.holds;
        whole = omega (arith, offset);
        room = Room-Frame kept f.room;
        total =
            total_known read.after n k (read.packet_length ∙ value) size (omega arith)
            ∙ ap ok large;
        small = small;
        known = omega (arith, kept.next);
      };
      state = refl;
    }

-- Where the first event of a packet that does not fit fills the primary buffer, the connection is
-- ready at once, and what it has is a front of the packet: the rest has not been received.
pub resolve_length-premature :
    (c : Connection) (b : ℕ) (bytes rest : List ℕ) (n beyond : ℕ)
    → Fresh c b
    → c.rbuf.cursor_index ≡ 0
    → b < c.rbuf.heap.next
    → All IsByte bytes
    → decode 4 bytes ≡ ok (n, rest)
    → length bytes ≡ 1024
    → length rest ≤ length bytes
    → n + (length bytes - length rest) ≡ 1024 + beyond
    → 0 < beyond
    → 1024 + beyond < 2 ^ 31
    → (after : Connection) × (process_event bytes c ≡ ok after)
      × (ready after ≡ true)
      × Stream after.rbuf rest
      × (n ≡ length rest + beyond)
unfolding ready
resolve_length-premature c b bytes rest n beyond f begin known hb d full shorter large more small =
    let r =
      resolve_length-Filling c b bytes rest n beyond f begin known hb d (omega arith) shorter large
        more small in
    (
      r.after,
      r.returns,
      (rw (r.filling.allowed, full) refl),
      primary r.filling.index
          (Filling-Sector r.after b rest (1024 - length bytes) beyond r.filling),
      omega arith,
    )
