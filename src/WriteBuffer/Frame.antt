-- ===== src/WriteBuffer/Frame.antt =====
-- `iov()` and `reset`: the finished packet.
use mosss.Common.{
  ℕ, zero, suc, ◌+◌, ◌-◌, ◌/◌, ◌^◌, ◌≤◌, ◌<◌, ◌≡◌, ◌≢◌, inl, inr, refl, sym, ap, subst, ◌∙◌, List,
  [], ◌++◌, length, ok, arith, Result, Option, some, true, ◌>>=◌, ◌==◌, length-append, append_assoc,
  ◌||◌, not,
}
use mosss.Common.Bits.{above_seven_32, with_top_bit}
use mosss.Memory.{at, Memory, update, advance, retreat, load_bytes, allocate}
use mosss.Memory.Holds.{
  Holds, Holds-append, load_bytes-Holds, Frame, Holds-Frame, Room, Stored, store_bytes-Stored,
}
use mosss.Memory.Copy.{allocate_lem, update_self, update_ne}
use mosss.Bytes.{sar7_32}
use mosss.Varint.{encoding, varint, length-varint}
use mosss.WriteBuffer.{
  Iovec, WriteBuffer, length_bytes, first_iov, write_length, finalize, reset, construct,
}
use mosss.WriteBuffer.Invariant.{room, Layout, Inv, Gathers, nothing, piece, Piece, First, Foreign}
use mosss.WriteBuffer.Strings.{flush_buffer-Flushed}
use native.Mathlib.Nat.{pow-suc}

-- The bytes that a `writev` of the first `n` iovecs sends.
unfoldable pub gather : Memory → (ℕ → Option Iovec) → ℕ → Result (List ℕ)
gather m iov zero = ok []
gather m iov (suc n) = do
  front ← gather m iov n
  vec ← first_iov (iov n)
  xs ← load_bytes m vec.iov_base vec.iov_len
  ok (front ++ xs)

gather-zero : (m : Memory) (iov : ℕ → Option Iovec) → gather m iov 0 ≡ ok []
unfolding gather
gather-zero m iov = refl

gather-suc :
    (m : Memory) (iov : ℕ → Option Iovec) (n : ℕ) (front xs : List ℕ) (vec : Iovec)
    → gather m iov n ≡ ok front
    → iov n ≡ some vec
    → load_bytes m vec.iov_base vec.iov_len ≡ ok xs
    → gather m iov (suc n) ≡ ok (front ++ xs)
unfolding gather
gather-suc m iov n front xs vec p listed loaded = rw (p, listed, loaded) refl

length_bytes-encoding :
    (k x : ℕ) → x < 2 ^ 31 → x < 128 ^ suc k → length_bytes (suc k) x ≡ ok (encoding k x)
unfolding length_bytes encoding sar7_32
length_bytes-encoding zero x small h = ground (arith, above_seven_32 x (omega arith))
length_bytes-encoding (suc k) x small h = ground (
  arith,
  above_seven_32 x (omega arith),
  with_top_bit x,
  length_bytes-encoding k (x / 128) (omega arith) (omega (arith, pow-suc 128 (suc k))),
)

length_bytes-varint : (x : ℕ) → x < 2 ^ 31 → length_bytes 5 x ≡ ok (varint x)
unfolding varint
length_bytes-varint x small = length_bytes-encoding 4 x small (omega arith)

-- The length `len` is stored in front of the first piece, whose iovec then begins at `len`.
module _ {m m' : Memory} {iov iov' : ℕ → Option Iovec} {b start lo : ℕ} (len : List ℕ)
    (v0 v1 : Iovec) (frame : Frame b lo 5 m m') (stored : Holds m' (at b lo) len)
    (before : lo + length len ≡ 5) (first : iov 0 ≡ some v0) (first_base : v0.iov_base ≡ at b 5)
    (now : iov' 0 ≡ some v1) (base : v1.iov_base ≡ at b lo)
    (longer : v1.iov_len ≡ v0.iov_len + length len)
    (others : (k : ℕ) → k ≢ 0 → iov' k ≡ iov k) where
  still : (vec : Iovec) (xs : List ℕ) → Piece m b start vec xs → Holds m' vec.iov_base xs
  still vec xs p =
      subst (λ q. Holds m' q xs) (sym p.base)
        (Holds-Frame p.owner p.offset xs frame
          (elim p.apart [ inl ne ↦ inl ne | inr above ↦ inr (inr above.0) ]) p.holds)

  gather-Gathers :
      (n : ℕ) (bs : List ℕ)
      → Gathers m iov b start (suc n) bs
      → gather m' iov' (suc n) ≡ ok (len ++ bs)
  gather-Gathers zero bs (piece vec xs nothing listed p e) =
      let same : v0 ≡ vec = cc in
      let begins : vec.iov_base ≡ at b (lo + length len) =
        ap (λ (v : Iovec). v.iov_base) (sym same) ∙ first_base ∙ ap (at b) (sym before) in
      let joined : Holds m' v1.iov_base (len ++ xs) =
        subst (λ q. Holds m' q (len ++ xs)) (sym base)
          (Holds-append m' (at b lo) len xs stored
            (subst (λ q. Holds m' q xs) begins (still vec xs p))) in
      let measured : v1.iov_len ≡ length (len ++ xs) =
        omega (arith, longer, p.len, ap (λ (v : Iovec). v.iov_len) same, length-append len xs) in
      let loaded : load_bytes m' v1.iov_base v1.iov_len ≡ ok (len ++ xs) =
        ap (load_bytes m' v1.iov_base) measured
        ∙ load_bytes-Holds m' v1.iov_base (len ++ xs) joined in
      gather-suc m' iov' 0 [] (len ++ xs) v1 (gather-zero m' iov') now loaded
      ∙ ap (λ s. ok (len ++ s)) (sym e)
  gather-Gathers (suc n) bs (piece {front = front} vec xs g listed p e) =
      let loaded : load_bytes m' vec.iov_base vec.iov_len ≡ ok xs =
        ap (load_bytes m' vec.iov_base) p.len
        ∙ load_bytes-Holds m' vec.iov_base xs (still vec xs p) in
      gather-suc m' iov' (suc n) (len ++ front) xs vec (gather-Gathers n front g)
        (others (suc n) (λ z. absurd (omega arith)) ∙ listed) loaded
      ∙ ap ok (append_assoc len front xs ∙ ap (λ s. len ++ s) (sym e))

  gather-positive :
      (n : ℕ) (bs : List ℕ) → 0 < n → Gathers m iov b start n bs → gather m' iov' n ≡ ok (len ++ bs)
  gather-positive zero bs pos g = absurd (omega arith)
  gather-positive (suc n) bs pos g = gather-Gathers n bs g

-- After `reset` the buffer holds nothing.
pub reset-Inv :
    (w : WriteBuffer) (block capacity : ℕ)
    → w.buf ≡ at block 0
    → w.end ≡ at block capacity
    → 5 ≤ capacity
    → capacity < 2 ^ 63
    → (w.heap.block block).alive ≡ true
    → (w.heap.block block).size ≡ capacity
    → block < w.heap.next
    → Inv (reset w) [] []
unfolding reset
reset-Inv w block capacity buf end header small alive size known =
    let five : advance w.buf 5 ≡ at block 5 = ap (λ p. advance p 5) buf in
    let layout : Layout (reset w) = record {
      block = block;
      capacity = capacity;
      start = 5;
      position = 5;
      buf = buf;
      end = end;
      sector_start = five;
      cursor = five;
      header = omega arith;
      ordered = omega arith;
      fits = header;
      small = small;
      alive = alive;
      size = size;
      known = known;
    } in
    record {
      layout = layout;
      holds = tt;
      position = omega arith;
      pieces = nothing;
      cursor_le = omega arith;
      packet_length = refl;
      first = inl (refl, refl);
    }

pub construct-Inv : (m : Memory) (size : ℕ) → size + 5 < 2 ^ 63 → Inv (construct m size) [] []
unfolding construct reset allocate
construct-Inv m size small =
    let r = allocate_lem m (size + 5) in
    reset-Inv (construct m size) m.next (size + 5) refl (ap (at m.next) (omega arith)) (omega arith)
      small r.0.alive r.2 (omega arith)

pub construct_sizes :
    (m : Memory) (size : ℕ) (small : size + 5 < 2 ^ 63)
    → (room (construct-Inv m size small) ≡ size)
      × ((construct-Inv m size small).layout.capacity ≡ size + 5)
unfolding construct-Inv reset-Inv
construct_sizes m size small = (omega arith, refl)

-- A new buffer of `size` bytes is well formed and holds nothing, and there is room for `size` bytes
-- behind the five that are kept for the length.
pub construct-Ready :
    (m : Memory) (size : ℕ)
    → size + 5 < 2 ^ 63
    → (i : Inv (construct m size) [] []) × (room i ≡ size) × (i.layout.capacity ≡ size + 5)
construct-Ready m size small =
    let (free, whole) = construct_sizes m size small in (construct-Inv m size small, free, whole)

-- What the caller had before is not in the buffer.
pub construct-Foreign :
    (m : Memory) (size : ℕ) (small : size + 5 < 2 ^ 63) (c : ℕ)
    → c < m.next
    → Foreign (construct-Inv m size small) c
unfolding construct-Inv reset-Inv construct allocate
construct-Foreign m size small c h = record {
  apart = λ e. absurd (omega arith);
  known = omega arith;
}

-- `result` is a normal return after which the iovecs send the length of `bytes` and `bytes`. The
-- caller's memory is as it was, and after `reset` the buffer can be used again.
pub record Framed {w : WriteBuffer} {sent sector : List ℕ} (i : Inv w sent sector)
    (result : Result WriteBuffer) (bytes : List ℕ) : Type 0 where
  pub after : WriteBuffer
  pub returns : result ≡ ok after
  pub sends : gather after.heap after.iov after.iov_cursor ≡ ok (varint (length bytes) ++ bytes)
  pub reusable : Inv (reset after) [] []
  pub kept :
      (c o : ℕ) (xs : List ℕ)
      → Foreign i c
      → Holds w.heap (at c o) xs
      → Holds after.heap (at c o) xs
  pub foreign : (c : ℕ) → Foreign i c → Foreign reusable c

-- The first piece takes in the length that is stored in front of it.
module _ {w : WriteBuffer} {bytes : List ℕ} (i : Inv w bytes []) (f : First w i.layout.block)
    (small : length bytes < 2 ^ 31) where
  open i.layout use {block, capacity}

  abbrev prefix : List ℕ
  prefix = varint (length bytes)

  abbrev lo : ℕ
  lo = 5 - length prefix

  prefix_fits : lo + length prefix ≡ 5
  prefix_fits = omega (arith, (length-varint (length bytes)).1)

  room_before : Room w.heap block lo (length prefix)
  room_before = record {
    alive = i.layout.alive;
    fits =
        omega (arith, prefix_fits, i.layout.size, i.layout.header, i.layout.ordered, i.layout.fits);
  }

  stored : Stored w.heap block lo prefix
  stored = store_bytes-Stored w.heap block lo prefix room_before

  abbrev extended : Iovec
  extended = record { iov_base = at block lo; iov_len = f.vec.iov_len + length prefix }

  abbrev lengthened : WriteBuffer
  lengthened = record w { heap = stored.after; iov = update w.iov 0 (some extended) }

  write_length_lem : write_length w ≡ ok lengthened
  unfolding write_length retreat
  write_length_lem =
      let exact : w.packet_length ≡ length bytes = omega (arith, i.packet_length) in
      let coded : length_bytes 5 w.packet_length ≡ ok prefix =
        ap (length_bytes 5) exact ∙ length_bytes-varint (length bytes) small in
      let back : retreat f.vec.iov_base (length prefix) ≡ ok (at block lo) =
        ap (λ p. retreat p (length prefix)) f.base ∙ ground (arith, prefix_fits) in
      rw (coded, f.listed, back, stored.runs) refl

  lengthened_sends : gather lengthened.heap lengthened.iov w.iov_cursor ≡ ok (prefix ++ bytes)
  lengthened_sends =
      gather-positive prefix f.vec extended
        (subst (λ n. Frame block lo n w.heap stored.after) prefix_fits stored.frame) stored.holds
        prefix_fits f.listed f.base (update_self w.iov 0 (some extended)) refl refl
        (λ k ne. update_ne w.iov 0 k (some extended) (λ z. absurd (omega (arith, ne)))) w.iov_cursor
        bytes f.some_pieces i.pieces

  write_length-Framed : Framed i (write_length w) bytes
  unfolding reset-Inv
  write_length-Framed = record {
    after = lengthened;
    returns = write_length_lem;
    sends = lengthened_sends;
    reusable =
        reset-Inv lengthened block capacity i.layout.buf i.layout.end
          (omega (arith, i.layout.header, i.layout.ordered, i.layout.fits)) i.layout.small
          (stored.frame.alive block ∙ i.layout.alive) (stored.frame.size block ∙ i.layout.size)
          (omega (arith, stored.frame.next, i.layout.known));
    kept = λ c o xs g h. Holds-Frame c o xs stored.frame (inl g.apart) h;
    foreign = λ c g. record { apart = g.apart; known = omega (arith, g.known, stored.frame.next) };
  }

pub first_piece :
    {w : WriteBuffer} {bytes sector : List ℕ} (i : Inv w bytes sector)
    → 0 < w.iov_cursor
    → First w i.layout.block
first_piece i some_pieces = elim i.first [ inl (none_yet, _) ↦ absurd (omega arith) | inr f ↦ f ]

-- The packet as the flushed sector and the stored length leave it.
finished :
    {w : WriteBuffer} {sent sector : List ℕ} (i : Inv w sent sector)
    → length (sent ++ sector) < 2 ^ 31
    → 0 < length sector + w.iov_cursor
    → Framed i (finalize w) (sent ++ sector)
unfolding finalize
finished {w} {sent} {sector} i small some_bytes =
    let f = flush_buffer-Flushed i in
    let test : (f.flushed || not (f.after.iov_cursor == 0)) ≡ true =
      ground (arith, f.some_pieces some_bytes) in
    let framed = write_length-Framed f.inv (first_piece f.inv (f.some_pieces some_bytes)) small in
    record {
      after = framed.after;
      returns = rw (f.returns, test) framed.returns;
      sends = framed.sends;
      reusable = framed.reusable;
      kept = λ c o xs g h. framed.kept c o xs (f.foreign c g) (f.kept c o xs g h);
      foreign = λ c g. framed.foreign c (f.foreign c g);
    }

-- Where every piece that is listed still points at live memory that holds its bytes, the caller's or
-- the closed part of the buffer's own block, which is not so any more once the block has grown while
-- a part of it was listed, and the four pointers are in that block, fewer than 2 ^ 31 bytes were
-- written, and at least one of them or a piece: `iov()` returns, and its iovecs send the number of
-- the bytes as a varint and then the bytes, in the order of the writes. The memory of the caller is
-- as it was, and after `reset` the buffer can be used again.
pub finalize-Framed :
    {w : WriteBuffer} {sent sector : List ℕ} (i : Inv w sent sector)
    → length (sent ++ sector) < 2 ^ 31
    → 0 < length sector + w.iov_cursor
    → Framed i (finalize w) (sent ++ sector)
finalize-Framed i small some_bytes = finished i small some_bytes

-- A packet that is one sector is sent by one iovec, and the elements behind it stay.
pub record OneSector {w : WriteBuffer} {sent sector : List ℕ} (i : Inv w sent sector) : Type 0 where
  pub framed : Framed i (finalize w) (sent ++ sector)
  pub count : framed.after.iov_cursor ≡ w.iov_cursor + 1
  pub slots : framed.after.iov_size ≡ w.iov_size
  pub behind : framed.after.iov (w.iov_cursor + 1) ≡ w.iov (w.iov_cursor + 1)

pub finalize-OneSector :
    {w : WriteBuffer} {sent sector : List ℕ} (i : Inv w sent sector)
    → length (sent ++ sector) < 2 ^ 31
    → 0 < length sector
    → w.iov_cursor + 1 < w.iov_size
    → OneSector i
unfolding finished write_length-Framed
finalize-OneSector {w} i small some_bytes more =
    let f = flush_buffer-Flushed i in
    let (count, slots, behind) = f.spare some_bytes more in
    record {
      framed = finished i small (omega arith);
      count = count;
      slots = slots;
      behind = update_ne f.after.iov 0 (w.iov_cursor + 1) _ (λ e. absurd (omega arith)) ∙ behind;
    }
