-- ===== src/Connection/Second.antt =====
-- The secondary buffer: `transition_to_secondary`, and `copy_to_buffer` from then on.
use mosss.Common.{
  ℕ, ◌+◌, ◌-◌, ◌^◌, ◌≤◌, ◌<◌, ◌≡◌, ◌≢◌, refl, ap, ◌∙◌, List, [], ◌++◌, length, length-append, arith,
  ok, Result, true, inl, inr,
}
use mosss.Memory.{at, allocate}
use mosss.Memory.Holds.{Room, Holds-append, Holds-Frame, store_bytes-Stored}
use mosss.Memory.Copy.{allocate_lem, Holds-block}
use mosss.ReadBuffer.{ReadBuffer, make_secondary, total_packet_length}
use mosss.ReadBuffer.Stream.{Sector}
use mosss.Connection.{
  Connection, pos, leb_ℤ, signed_32, ◌-ℤ◌, copy_to_buffer_handler, process, transition_to_secondary,
  copy_to_buffer, take_in,
}
use mosss.Connection.Partial.{process_event, fewer}
use mosss.Connection.Large.{Filling}

-- The connection has the bytes `xs` in the primary buffer and `ys` in the secondary one, and
-- `missing` bytes are to come.
pub record Second (c : Connection) (xs ys : List ℕ) (missing : ℕ) : Type 0 where
  pub secondary : c.at_secondary ≡ true
  pub allowed : c.bytes_allowed ≡ pos missing
  pub events : c.process_events ≡ copy_to_buffer_handler
  pub index : c.rbuf.cursor_index ≡ 0
  pub front : Sector c.rbuf.heap c.rbuf.iv0 xs
  pub sector : Sector c.rbuf.heap c.rbuf.iv1 ys
  pub apart : front.block ≢ sector.block
  pub room : Room c.rbuf.heap sector.block (sector.offset + length ys) missing
  pub small : sector.offset + length ys + missing < 2 ^ 31

pub record Took (result : Result Connection) (c : Connection) (xs ys : List ℕ) (missing : ℕ)
    : Type 0 where
  pub after : Connection
  pub returns : result ≡ ok after
  pub second : Second after xs ys missing
  pub state : after.state ≡ c.state

pub process-Second :
    (c : Connection) (xs ys zs : List ℕ) (missing : ℕ)
    → Second c xs ys missing
    → length zs ≤ missing
    → Took (process_event zs c) c xs (ys ++ zs) (missing - length zs)
unfolding process copy_to_buffer take_in
process-Second c xs ys zs missing p few =
    let s = p.sector in
    let o = s.offset + length ys in
    let st =
      store_bytes-Stored c.rbuf.heap s.block o zs
        (record { alive = p.room.alive; fits = omega (arith, p.room.fits) }) in
    let whole : o + length zs ≡ s.offset + length (ys ++ zs) = omega (arith, length-append ys zs) in
    let end : at s.block (o + length zs) ≡ at s.block (s.offset + length (ys ++ zs)) =
      ap (at s.block) whole in
    let r = record c.rbuf {
      heap = st.after;
      iv1 = record c.rbuf.iv1 { end = at s.block (o + length zs) };
    } in
    let after : Connection = record c { rbuf = r; bytes_allowed = pos (missing - length zs) } in
    record {
      after = after;
      returns =
          rw (p.events, p.secondary, s.end, st.runs, p.allowed, fewer missing (length zs) few) refl;
      second = record {
        secondary = p.secondary;
        allowed = refl;
        events = p.events;
        index = p.index;
        front = record {
          block = p.front.block;
          offset = p.front.offset;
          buf = p.front.buf;
          end = p.front.end;
          fits = p.front.fits;
          holds = Holds-Frame p.front.block p.front.offset xs st.frame (inl p.apart) p.front.holds;
        };
        sector = record {
          block = s.block;
          offset = s.offset;
          buf = s.buf;
          end = end;
          fits = omega (arith, p.small, whole);
          holds =
              Holds-append st.after (at s.block s.offset) ys zs
                (Holds-Frame s.block s.offset ys st.frame (inr (inl (omega arith))) s.holds)
                st.holds;
        };
        apart = p.apart;
        room = record {
          alive = st.frame.alive s.block ∙ p.room.alive;
          fits = omega (arith, st.frame.size s.block, p.room.fits, whole);
        };
        small = omega (arith, p.small, whole);
      };
      state = refl;
    }

signed_beyond :
    (beyond : ℕ) → 1024 + beyond < 2 ^ 31 → signed_32 (1024 + beyond) -ℤ 1024 ≡ pos beyond
unfolding ◌-ℤ◌
signed_beyond beyond h = ground arith

same_total :
    (r r1 : ReadBuffer)
    → r1.packet_length ≡ r.packet_length
    → r1.sizeof_length ≡ r.sizeof_length
    → total_packet_length r1 ≡ total_packet_length r
unfolding total_packet_length
same_total r r1 p q = rw (p, q) refl

-- The event that fills the primary buffer.
pub transition_to_secondary-Second :
    (c : Connection) (b : ℕ) (xs ys : List ℕ) (beyond : ℕ)
    → Filling c b xs (length ys) beyond
    → Took (process_event ys c) c (xs ++ ys) [] beyond
unfolding process transition_to_secondary take_in make_secondary
transition_to_secondary-Second c b xs ys beyond f =
    let o = f.offset + length xs in
    let st =
      store_bytes-Stored c.rbuf.heap b o ys
        (record { alive = f.room.alive; fits = omega (arith, f.room.fits, f.whole) }) in
    let whole : o + length ys ≡ f.offset + length (xs ++ ys) = omega (arith, length-append xs ys) in
    let new = st.after.next in
    let there : b < new = omega (arith, f.known, st.frame.next) in
    let fresh = allocate_lem st.after beyond in
    let all : leb_ℤ (pos (length ys)) (length ys) ≡ true = ground arith in
    let r1 = record c.rbuf {
      heap = st.after;
      iv0 = record c.rbuf.iv0 { end = at b (o + length ys) };
    } in
    let total : total_packet_length r1 ≡ ok (1024 + beyond) =
      same_total c.rbuf r1 refl refl ∙ f.total in
    let size = signed_beyond beyond f.small in
    let r = record c.rbuf {
      heap = allocate st.after beyond;
      iv0 = record c.rbuf.iv0 { end = at b (o + length ys) };
      iv1 = record { buf = at new 0; end = at new 0 };
    } in
    let after : Connection = record c {
      rbuf = r;
      at_secondary = true;
      bytes_allowed = pos beyond;
      process_events = copy_to_buffer_handler;
    } in
    record {
      after = after;
      returns = rw (f.events, f.first, f.end, st.runs, f.allowed, all, total, size) refl;
      second = record {
        secondary = refl;
        allowed = refl;
        events = refl;
        index = f.index;
        front = record {
          block = b;
          offset = f.offset;
          buf = f.buf;
          end = ap (at b) whole;
          fits = omega (arith, f.whole, whole);
          holds =
              Holds-block st.after (allocate st.after beyond) b f.offset (xs ++ ys)
                (fresh.1 b there)
                (Holds-append st.after (at b f.offset) xs ys
                  (Holds-Frame b f.offset xs st.frame (inr (inl (omega arith))) f.holds) st.holds);
        };
        sector = record {
          block = new;
          offset = 0;
          buf = refl;
          end = refl;
          fits = omega arith;
          holds = tt;
        };
        apart = λ e. absurd (omega arith);
        room = fresh.0;
        small = omega (arith, f.small);
      };
      state = refl;
    }
