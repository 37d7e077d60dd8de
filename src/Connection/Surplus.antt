-- ===== src/Connection/Surplus.antt =====
-- `reset` with the start of the next packet in the primary buffer.
use mosss.Common.{
  ℕ, suc, ◌+◌, ◌≤◌, ◌<◌, ◌≡◌, refl, subst, ap, ◌∙◌, List, length, ok, err, undefined, ◌>>=◌, arith,
  false, inr,
}
use mosss.Memory.{at, null, delete}
use mosss.Memory.Holds.{Room, Holds}
use mosss.Memory.Copy.{copy_bytes-Copied, Copied-Holds}
use mosss.ReadBuffer.{ReadBuffer, total_packet_length, feed}
use mosss.Connection.{
  Connection, pos, negsuc, signed_32, received, process, resolve_length_handler, reset,
}
use mosss.Connection.Overflow.{Receiving, process_past}

-- A connection with a whole packet of `total` bytes in the primary buffer, block `b`, and behind it
-- the first bytes `rest` of the next one.
pub record Surplus (c : Connection) (b total : ℕ) (rest : List ℕ) : Type 0 where
  pub primary : c.primary ≡ at b 0
  pub no_secondary : c.rbuf.iv1.buf ≡ null
  pub total_is : total_packet_length c.rbuf ≡ ok total
  pub surplus : (n : ℕ) × (c.bytes_allowed ≡ negsuc n) × (length rest ≡ suc n)
  pub inside : total + length rest ≤ 1024
  pub room : Room c.rbuf.heap b 0 1024
  pub size : (c.rbuf.heap.block b).size ≡ 1024
  pub holds : Holds c.rbuf.heap (at b total) rest

-- What `reset` leaves: `rest` is at the start of the buffer, and what is read next is behind it.
pub record Skipped (c : Connection) (b : ℕ) (rest : List ℕ) : Type 0 where
  pub after : Connection
  pub returns : reset c ≡ ok after
  pub kept : Holds after.rbuf.heap (at b 0) rest
  pub buf : after.rbuf.iv0.buf ≡ at b (length rest)
  pub allowed : after.bytes_allowed ≡ pos 1024
  pub receiving : Receiving after b (length rest)

reset-Skipped :
    (c : Connection) (b total : ℕ) (rest : List ℕ) → Surplus c b total rest → Skipped c b rest
unfolding reset feed delete
reset-Skipped c b total rest s =
    let (n, allowed, long) = s.surplus in
    let r : Room c.rbuf.heap b total (suc n) = record {
      alive = s.room.alive;
      fits = omega (arith, s.inside, s.size, long);
    } in
    let start : Room c.rbuf.heap b 0 (suc n) = record {
      alive = s.room.alive;
      fits = omega (arith, s.inside, s.size, long);
    } in
    let copied = copy_bytes-Copied (suc n) c.rbuf.heap b total b 0 (inr (omega arith)) r start in
    let positive : signed_32 total ≡ pos total = ground (arith, s.inside) in
    let from : at b (0 + total) ≡ at b total = ap (at b) (omega arith) in
    let stop : at b (0 + suc n) ≡ at b (length rest) = ap (at b) (omega (arith, long)) in
    let rbuf : ReadBuffer = record c.rbuf {
      heap = copied.after;
      iv0 = record { buf = at b (0 + suc n); end = at b (0 + suc n) };
      cursor_index = 0;
      pos = 0;
      packet_length = 0;
      sizeof_length = 0;
    } in
    record {
      after = record c {
        rbuf = rbuf;
        at_secondary = false;
        bytes_allowed = pos 1024;
        process_events = resolve_length_handler;
      };
      returns =
          rw (allowed, s.total_is, positive, s.primary, from, copied.runs, s.no_secondary) refl;
      kept =
          Copied-Holds copied 0 rest start (omega (arith, long))
            (subst (λ o. Holds c.rbuf.heap (at b o) rest) (omega arith) s.holds);
      buf = stop;
      allowed = refl;
      receiving = record {
        first = refl;
        end = stop;
        inside = omega (arith, s.inside);
        room = record {
          alive = copied.frame.alive b ∙ s.room.alive;
          fits = omega (arith, copied.frame.size b, s.size);
        };
        size = copied.frame.size b ∙ s.size;
      };
    }

-- Where the start of the next packet, `rest`, was received with a packet, `reset` moves it to
-- the start of the primary buffer; what is read next is behind `rest`, so `rest` is never
-- read. It also allows 1024 bytes for the part of the buffer behind `rest`: where the next
-- `recv` takes more than fit there, it writes past the end of the buffer, which is undefined.
pub reset-overflow :
    (c : Connection) (b total : ℕ) (rest bytes : List ℕ)
    → Surplus c b total rest
    → length bytes ≤ 1024
    → 1024 < length rest + length bytes
    → Skipped c b rest × ((reset c >>= process (received bytes)) ≡ err undefined)
reset-overflow c b total rest bytes s allowed past =
    let r = reset-Skipped c b total rest s in
    (r, rw r.returns (process_past r.after b (length rest) bytes r.receiving past))
