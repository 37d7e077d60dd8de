-- ===== src/Connection/Receive.antt =====
-- `resolve_length`: the first event of a packet.
use mosss.Common.{
  ℕ, ◌+◌, ◌-◌, ◌*◌, ◌^◌, ◌≤◌, ◌≡◌, refl, sym, ap, subst, ap₂, ◌∙◌, List, length, arith, ok, some,
  false, ltb, leb, All, ◌&&◌, ◌==◌,
}
use mosss.Memory.{at, Memory, distance}
use mosss.Memory.Holds.{Frame, Room, store_bytes-Stored}
use mosss.Bytes.Order.{IsByte}
use mosss.Varint.{decode}
use mosss.ReadBuffer.{ReadBuffer, read_length, total_packet_length, minus_one}
use mosss.ReadBuffer.Stream.{Sector}
use mosss.ReadBuffer.Waits.{Progress}
use mosss.ReadBuffer.Resume.{read_length-decode}
use mosss.WriteBuffer.Capacity.{distance_at}
use mosss.Connection.{
  Connection, pos, sub_ℕ, leb_ℤ, signed_32, ◌-ℤ◌, received, resolve_length_handler,
  copy_to_buffer_handler, process, run_handler, resolve_length, take_in, ready,
}

-- A connection that waits for the first byte of a packet.
pub record Fresh (c : Connection) (b : ℕ) : Type 0 where
  pub primary : c.primary ≡ at b 0
  pub first : c.at_secondary ≡ false
  pub allowed : c.bytes_allowed ≡ pos 1024
  pub events : c.process_events ≡ resolve_length_handler
  pub buf : c.rbuf.iv0.buf ≡ at b 0
  pub end : c.rbuf.iv0.end ≡ at b 0
  pub position : c.rbuf.pos ≡ 0
  pub packet_length : c.rbuf.packet_length ≡ 0
  pub sizeof_length : c.rbuf.sizeof_length ≡ 0
  pub room : Room c.rbuf.heap b 0 1024

-- The first event with the whole length of a packet that fits: the bytes that are still allowed are
-- those of the packet that are missing, a negative number if more than the packet was received,
-- and what follows the length is unread.
pub record LengthKnown (c : Connection) (bytes rest : List ℕ) (n : ℕ) : Type 0 where
  pub after : Connection
  pub returns : process (received bytes) c ≡ ok (some after)
  pub allowed : after.bytes_allowed ≡ sub_ℕ (n + (length bytes - length rest)) (length bytes)
  pub complete : ready after ≡ leb (n + (length bytes - length rest)) (length bytes)
  pub events : after.process_events ≡ copy_to_buffer_handler
  pub unread : Sector after.rbuf.heap after.rbuf.iv0 rest
  pub index : after.rbuf.cursor_index ≡ c.rbuf.cursor_index
  pub second : after.rbuf.iv1 ≡ c.rbuf.iv1
  pub state : after.state ≡ c.state
  pub first : after.at_secondary ≡ c.at_secondary
  pub owner :
      (b : ℕ) × (c.primary ≡ at b 0)
      × (after.rbuf.iv0.end ≡ at b (length bytes))
      × Frame b 0 (length bytes) c.rbuf.heap after.rbuf.heap

pub take_in-Fresh :
    (c : Connection) (b : ℕ) (bytes : List ℕ)
    → Fresh c b
    → length bytes ≤ 1024
    → (m : Memory) × (take_in bytes c
        ≡ ok (record c {
          rbuf = record c.rbuf { heap = m; iv0 = record c.rbuf.iv0 { end = at b (length bytes) } };
        }))
      × Sector m (record c.rbuf.iv0 { end = at b (length bytes) }) bytes
      × Frame b 0 (0 + length bytes) c.rbuf.heap m
unfolding take_in
take_in-Fresh c b bytes f few =
    let s =
      store_bytes-Stored c.rbuf.heap b 0 bytes
        (record { alive = f.room.alive; fits = omega (arith, f.room.fits) }) in
    let same : at b (0 + length bytes) ≡ at b (length bytes) = ap (at b) (omega arith) in
    (
      s.after,
      rw (f.first, f.end, s.runs, same) refl,
      record {
        block = b;
        offset = 0;
        buf = f.buf;
        end = sym same;
        fits = omega arith;
        holds = s.holds;
      },
      s.frame,
    )

ready_sub : (a b : ℕ) → leb_ℤ (sub_ℕ a b) 0 ≡ leb a b
ready_sub a b = ground arith

pub fresh_sub : (n : ℕ) → n ≤ 1024 → pos 1024 -ℤ n ≡ pos (1024 - n)
unfolding ◌-ℤ◌
fresh_sub n h = ground arith

signed_sub : (x k : ℕ) → x ≤ 1024 → signed_32 x -ℤ k ≡ sub_ℕ x k
unfolding ◌-ℤ◌
signed_sub x k h = ground arith

total_small :
    (r : ReadBuffer) (n k : ℕ)
    → r.packet_length ≡ n
    → r.sizeof_length ≡ k
    → n + k ≤ 1024
    → total_packet_length r ≡ ok (n + k)
unfolding total_packet_length
total_small r n k p q h = rw (p, q) (ground arith)

resolved :
    (c : Connection) (bytes : List ℕ) (r1 r2 : ReadBuffer) (n k : ℕ)
    → take_in bytes c ≡ ok (record c { rbuf = r1 })
    → read_length r1 ≡ ok (n, r2)
    → c.bytes_allowed ≡ pos 1024
    → length bytes ≤ 1024
    → n + k ≤ 1024
    → r2.sizeof_length ≡ k
    → total_packet_length r2 ≡ ok (n + k)
    → c.at_secondary ≡ false
    → distance r2.iv0.end c.primary ≡ ok (length bytes)
    → resolve_length (received bytes) c
      ≡ ok (
          some (record c {
            rbuf = r2;
            bytes_allowed = sub_ℕ (n + k) (length bytes);
            process_events = copy_to_buffer_handler;
          }))
unfolding resolve_length
resolved c bytes r1 r2 n k took read allowed few small size total first taken =
    let known : (n == minus_one) ≡ false = ground arith in
    let fits_in : (ltb n (2 ^ 31) && ltb (1024 - r2.sizeof_length) n) ≡ false =
      ground (arith, size) in
    rw (took, read, known, fits_in, total, first, taken, signed_sub (n + k) (length bytes) small)
      refl

-- Where the first event of a packet has its whole length, and the packet fits into the primary
-- buffer, the connection then waits for exactly the bytes that are missing, and is ready when none
-- is.
pub resolve_length-known :
    (c : Connection) (b : ℕ) (bytes rest : List ℕ) (n : ℕ)
    → Fresh c b
    → All IsByte bytes
    → decode 4 bytes ≡ ok (n, rest)
    → length bytes ≤ 1024
    → length rest ≤ length bytes
    → n + (length bytes - length rest) ≤ 1024
    → LengthKnown c bytes rest n
unfolding process ready
resolve_length-known c b bytes rest n f hb d few shorter small =
    let (m, took, sector, frame) = take_in-Fresh c b bytes f few in
    let r1 = record c.rbuf { heap = m; iv0 = record c.rbuf.iv0 { end = at b (length bytes) } } in
    let start : Progress 0 r1 = record {
      pos = f.position ∙ omega arith;
      small = rw (f.packet_length, f.position) (omega arith);
    } in
    let read = read_length-decode 0 r1 n bytes rest start (omega arith) hb d sector in
    let value : c.rbuf.packet_length + n * 2 ^ c.rbuf.pos ≡ n =
      rw (f.packet_length, f.position) (omega arith) in
    let total : total_packet_length read.after ≡ ok (n + (length bytes - length rest)) =
      total_small read.after n (length bytes - length rest) (read.packet_length ∙ value)
        (omega (arith, read.sizeof_length, f.sizeof_length)) (omega arith) in
    let taken : distance read.after.iv0.end c.primary ≡ ok (length bytes) =
      ap₂ distance read.stops f.primary
      ∙ distance_at b (length bytes) 0 (omega arith) (omega arith)
      ∙ ap ok (omega arith) in
    let after : Connection = record c {
      rbuf = read.after;
      bytes_allowed = sub_ℕ (n + (length bytes - length rest)) (length bytes);
      process_events = copy_to_buffer_handler;
    } in
    record {
      after = after;
      returns =
          ap (λ h. run_handler h (received bytes) c) f.events
          ∙ resolved c bytes r1 read.after n (length bytes - length rest) took
              (read.returns ∙ ap (λ v. ok (v, read.after)) value) f.allowed few small
              (omega (arith, read.sizeof_length, f.sizeof_length)) total f.first taken;
      allowed = refl;
      complete = ready_sub (n + (length bytes - length rest)) (length bytes);
      events = refl;
      unread = read.sector;
      index = read.cursor_index;
      second = read.second;
      state = refl;
      first = refl;
      owner = (
        b,
        f.primary,
        read.stops,
        subst (λ h. Frame b 0 (length bytes) c.rbuf.heap h) (sym read.heap)
            (subst (λ n. Frame b 0 n c.rbuf.heap m) (omega arith) frame),
      );
    }
