-- ===== src/Connection/Partial.antt =====
-- One event of a packet that is not complete.
use mosss.Common.{
  ℕ, ◌+◌, ◌-◌, ◌≤◌, ◌≡◌, refl, sym, ap, subst, ◌∙◌, List, ◌++◌, length, length-append, arith,
  Result, ok, err, inl, inr, undefined, some, none, ◌>>=◌, false, leb, All,
}
use mosss.Memory.{at}
use mosss.Memory.Holds.{Frame, Holds-append, Holds-Frame, Room, store_bytes-Stored}
use mosss.Bytes.Order.{IsByte}
use mosss.Varint.{decode}
use mosss.ReadBuffer.Stream.{Sector}
use mosss.Connection.{
  Connection, pos, ◌-ℤ◌, received, copy_to_buffer_handler, process, copy_to_buffer, take_in, ready,
}
use mosss.Connection.Receive.{Fresh, resolve_length-known}

-- An event, after which the connection has to be there.
abbrev pub process_event : List ℕ → Connection → Result Connection
process_event xs c =
    process (received xs) c >>= λ o. elim o [ none ↦ err undefined | some c1 ↦ ok c1 ]

-- The connection has the bytes `xs` of a packet, and `missing` bytes of it are to come.
pub record Partial (c : Connection) (xs : List ℕ) (missing : ℕ) : Type 0 where
  pub first : c.at_secondary ≡ false
  pub allowed : c.bytes_allowed ≡ pos missing
  pub events : c.process_events ≡ copy_to_buffer_handler
  pub sector : Sector c.rbuf.heap c.rbuf.iv0 xs
  pub room : Room c.rbuf.heap sector.block (sector.offset + length xs) missing
  pub small : sector.offset + length xs + missing ≤ 1024

-- `result` is a connection that has the bytes `xs`, which lie in block `b`, and is otherwise like `c`.
pub record Step (result : Result Connection) (c : Connection) (b : ℕ) (xs : List ℕ) (missing : ℕ)
    : Type 0 where
  pub after : Connection
  pub returns : result ≡ ok after
  pub partial : Partial after xs missing
  pub block : partial.sector.block ≡ b
  pub complete : ready after ≡ leb missing 0
  pub state : after.state ≡ c.state
  pub index : after.rbuf.cursor_index ≡ c.rbuf.cursor_index
  pub second : after.rbuf.iv1 ≡ c.rbuf.iv1
  pub lo : ℕ
  pub hi : ℕ
  pub frame : Frame b lo hi c.rbuf.heap after.rbuf.heap

pub fewer : (a b : ℕ) → b ≤ a → pos a -ℤ b ≡ pos (a - b)
unfolding ◌-ℤ◌
fewer a b h = ground arith

pub ready-Partial :
    (c : Connection) (xs : List ℕ) (missing : ℕ) → Partial c xs missing → ready c ≡ leb missing 0
unfolding ready
ready-Partial c xs missing p = rw p.allowed refl

pub process-Partial :
    (c : Connection) (xs ys : List ℕ) (missing : ℕ) (p : Partial c xs missing)
    → length ys ≤ missing
    → Step (process_event ys c) c p.sector.block (xs ++ ys) (missing - length ys)
unfolding process copy_to_buffer take_in
process-Partial c xs ys missing p few =
    let s = p.sector in
    let o = s.offset + length xs in
    let st =
      store_bytes-Stored c.rbuf.heap s.block o ys
        (record { alive = p.room.alive; fits = omega (arith, p.room.fits) }) in
    let whole : o + length ys ≡ s.offset + length (xs ++ ys) = omega (arith, length-append xs ys) in
    let end : at s.block (o + length ys) ≡ at s.block (s.offset + length (xs ++ ys)) =
      ap (at s.block) whole in
    let r = record c.rbuf {
      heap = st.after;
      iv0 = record c.rbuf.iv0 { end = at s.block (o + length ys) };
    } in
    let after : Connection = record c { rbuf = r; bytes_allowed = pos (missing - length ys) } in
    record {
      after = after;
      returns =
          rw (p.events, p.first, s.end, st.runs, p.allowed, fewer missing (length ys) few) refl;
      partial = record {
        first = p.first;
        allowed = refl;
        events = p.events;
        sector = record {
          block = s.block;
          offset = s.offset;
          buf = s.buf;
          end = end;
          fits = omega (arith, p.small, whole);
          holds =
              Holds-append st.after (at s.block s.offset) xs ys
                (Holds-Frame s.block s.offset xs st.frame (inr (inl (omega arith))) s.holds)
                st.holds;
        };
        room = record {
          alive = st.frame.alive s.block ∙ p.room.alive;
          fits = omega (arith, st.frame.size s.block, p.room.fits, whole);
        };
        small = omega (arith, p.small, whole);
      };
      block = refl;
      complete = unfold ready in refl;
      state = refl;
      index = refl;
      second = refl;
      lo = o;
      hi = o + length ys;
      frame = st.frame;
    }

pub same_at : {a b i j : ℕ} → at a i ≡ at b j → (a ≡ b) × (i ≡ j)
same_at h = (cc, cc)

-- The first event of a packet, where it has the whole length and no more than the packet.
pub resolve_length-Step :
    (c : Connection) (b : ℕ) (bytes rest : List ℕ) (n : ℕ)
    → Fresh c b
    → All IsByte bytes
    → decode 4 bytes ≡ ok (n, rest)
    → length rest ≤ length bytes
    → n + (length bytes - length rest) ≤ 1024
    → length rest ≤ n
    → Step (process_event bytes c) c b rest (n - length rest)
resolve_length-Step c b bytes rest n f hb decoded shorter small part =
    let k = resolve_length-known c b bytes rest n f hb decoded (omega arith) shorter small in
    let (d, primary, stop, frame) = k.owner in
    let s = k.unread in
    let ends : at s.block (s.offset + length rest) ≡ at d (length bytes) = sym s.end ∙ stop in
    let owner : d ≡ b = (same_at (sym primary ∙ f.primary)).0 in
    let block : s.block ≡ b = (same_at ends).0 ∙ owner in
    let offset : s.offset + length rest ≡ length bytes = (same_at ends).1 in
    let partial : Partial k.after rest (n - length rest) = record {
      first = k.first ∙ f.first;
      allowed = k.allowed ∙ ground arith;
      events = k.events;
      sector = s;
      room = record {
        alive = frame.alive s.block ∙ ap (λ x. (c.rbuf.heap.block x).alive) block ∙ f.room.alive;
        fits =
            subst
              (λ x. s.offset + length rest + (n - length rest) ≤ (k.after.rbuf.heap.block x).size)
              (sym block) (omega (arith, frame.size b, f.room.fits, offset));
      };
      small = omega (arith, offset);
    } in
    record {
      after = k.after;
      returns = rw k.returns refl;
      partial = partial;
      block = block;
      complete = ready-Partial k.after rest (n - length rest) partial;
      state = k.state;
      index = k.index;
      second = k.second;
      lo = 0;
      hi = length bytes;
      frame = subst (λ x. Frame x 0 (length bytes) c.rbuf.heap k.after.rbuf.heap) owner frame;
    }
