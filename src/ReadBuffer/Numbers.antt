-- ===== src/ReadBuffer/Numbers.antt =====
-- `read_ulong`, `read_long`, `read_ushort` and `read_uuid`: big-endian inside one sector, and with
-- the bytes the other way round across two.
use mosss.Common.{
  ℕ, ◌+◌, ◌-◌, ◌%◌, ◌^◌, ◌<◌, ◌≡◌, refl, ap, subst, sym, ◌∙◌, List, [], ◌++◌, append-nil, length,
  length-append, ok, arith, All,
}
use mosss.Memory.{Memory, Pointer, at, advance, load_bytes}
use mosss.Memory.Holds.{append-Holds, load_bytes-Holds}
use mosss.Bytes.{from_le, bswap}
use mosss.Bytes.Order.{
  IsByte, from_be, be_bytes, bswap-from_le, from_be-be_bytes, be_bytes-IsByte, length-be_bytes,
}
use mosss.ReadBuffer.{
  Ivec, ReadBuffer, Uuid, with_buf, read_unsigned, read_ulong, read_ushort, read_uuid,
}
use mosss.ReadBuffer.Stream.{
  Sector, Stream, secondary, AtSector, Reads, AtSector-skip, skip-AtSector, Sector-distance,
  Sector-drop, buffer_of, with_buf_second,
}

-- The bytes in front of a sector, as the loads see them.
pub load_bytes-Sector :
    {m : Memory} (iv : Ivec) (xs ys : List ℕ)
    → Sector m iv (xs ++ ys)
    → load_bytes m iv.buf (length xs) ≡ ok xs
load_bytes-Sector {m} iv xs ys s = rw s.buf (
    load_bytes-Holds m (at s.block s.offset) xs
      (append-Holds m (at s.block s.offset) xs ys s.holds).0)

-- Inside one sector the `n` bytes are read highest first.
pub read_unsigned-AtSector :
    (i : ℕ) (stop : Pointer) (r : ReadBuffer) (xs rest : List ℕ)
    → All IsByte xs
    → AtSector i stop r (xs ++ rest)
    → Reads (AtSector i stop) r (read_unsigned (length xs) r) (from_be xs) rest
unfolding read_unsigned
read_unsigned-AtSector i stop r xs rest bytes s = record {
  after = with_buf r.cursor_index r (advance s.iv.buf (length xs));
  returns = ground (
    arith,
    s.at_cursor,
    Sector-distance s.iv (xs ++ rest) s.sector,
    length-append xs rest,
    load_bytes-Sector s.iv xs rest s.sector,
    bswap-from_le xs bytes,
  );
  view = AtSector-skip i stop r xs rest s;
  heap = (skip-AtSector i stop (length xs) r (xs ++ rest) s).1;
}

abbrev crossed : ReadBuffer → ℕ → ReadBuffer
crossed r n = record r { cursor_index = 1; iv1 = record r.iv1 { buf = advance r.iv1.buf n } }

-- Across both sectors they are read lowest first.
pub read_unsigned-across :
    (r : ReadBuffer) (xs ys rest : List ℕ)
    → r.cursor_index ≡ 0
    → Sector r.heap r.iv0 xs
    → Sector r.heap r.iv1 (ys ++ rest)
    → 0 < length ys
    → length xs + length ys < 2 ^ 64
    → Reads Stream r (read_unsigned (length xs + length ys) r) (from_le (xs ++ ys)) rest
unfolding read_unsigned
read_unsigned-across r xs ys rest i s0 s1 more small =
    let front : load_bytes r.heap r.iv0.buf (length xs) ≡ ok xs =
      load_bytes-Sector r.iv0 xs [] (subst (Sector r.heap r.iv0) (sym (append-nil xs)) s0) in
    let into : (length xs + length ys + 2 ^ 64 - length xs) % 2 ^ 64 ≡ length ys = omega arith in
    record {
      after = crossed r (length ys);
      returns =
          ground
            (arith, Sector-distance r.iv0 xs s0, front, into, load_bytes-Sector r.iv1 ys rest s1);
      view = secondary refl (Sector-drop r.iv1 ys rest s1);
      heap = refl;
    }

-- `read_ulong` gives the number whose big-endian bytes come next in the sector at the cursor.
pub read_ulong-be_bytes :
    (i : ℕ) (stop : Pointer) (r : ReadBuffer) (x : ℕ) (rest : List ℕ)
    → x < 2 ^ 64
    → AtSector i stop r (be_bytes 8 x ++ rest)
    → Reads (AtSector i stop) r (read_ulong r) x rest
unfolding read_ulong
read_ulong-be_bytes i stop r x rest fits s =
    rw (length-be_bytes 8 x, from_be-be_bytes 8 x (omega arith)) at
      (read_unsigned-AtSector i stop r (be_bytes 8 x) rest (be_bytes-IsByte 8 x) s)

-- In the primary sector it leaves the secondary one as it is.
pub read_ulong-second :
    (stop : Pointer) (r : ReadBuffer) (x y : ℕ) (rest : List ℕ) (r1 : ReadBuffer)
    → AtSector 0 stop r (be_bytes 8 x ++ rest)
    → read_ulong r ≡ ok (y, r1)
    → r1.iv1 ≡ r.iv1
unfolding read_ulong read_unsigned-AtSector
read_ulong-second stop r x y rest r1 s e =
    let found = read_unsigned-AtSector 0 stop r (be_bytes 8 x) rest (be_bytes-IsByte 8 x) s in
    let same : read_unsigned 8 r ≡ ok (from_be (be_bytes 8 x), found.after) =
      ap (λ n. read_unsigned n r) (sym (length-be_bytes 8 x)) ∙ found.returns in
    sym (ap (λ (b : ReadBuffer). b.iv1) (buffer_of (sym same ∙ e))) ∙ with_buf_second r _ s.index

-- So does `read_ushort`.
pub read_ushort-be_bytes :
    (i : ℕ) (stop : Pointer) (r : ReadBuffer) (x : ℕ) (rest : List ℕ)
    → x < 2 ^ 16
    → AtSector i stop r (be_bytes 2 x ++ rest)
    → Reads (AtSector i stop) r (read_ushort r) x rest
unfolding read_ushort
read_ushort-be_bytes i stop r x rest fits s =
    rw (length-be_bytes 2 x, from_be-be_bytes 2 x (omega arith)) at
      (read_unsigned-AtSector i stop r (be_bytes 2 x) rest (be_bytes-IsByte 2 x) s)

-- `read_uuid` gives the UUID whose two halves come next in the sector at the cursor.
pub read_uuid-be_bytes :
    (i : ℕ) (stop : Pointer) (r : ReadBuffer) (u : Uuid) (rest : List ℕ)
    → u.most < 2 ^ 64
    → u.least < 2 ^ 64
    → AtSector i stop r (be_bytes 8 u.most ++ (be_bytes 8 u.least ++ rest))
    → Reads (AtSector i stop) r (read_uuid r) u rest
read_uuid-be_bytes i stop r u rest most least s =
    let first = read_ulong-be_bytes i stop r u.most _ most s in
    let second = read_ulong-be_bytes i stop first.after u.least rest least first.view in
    record {
      after = second.after;
      returns = unfold read_uuid in rw (first.returns, second.returns);
      view = second.view;
      heap = second.heap ∙ first.heap;
    }

-- Where the eight bytes of a number lie in both buffers, `read_ulong` gives the number with its
-- bytes swapped: nothing swaps what `read_across_buffers` copied.
pub read_ulong-across :
    (r : ReadBuffer) (x : ℕ) (xs ys rest : List ℕ)
    → be_bytes 8 x ≡ xs ++ ys
    → r.cursor_index ≡ 0
    → Sector r.heap r.iv0 xs
    → Sector r.heap r.iv1 (ys ++ rest)
    → 0 < length ys
    → Reads Stream r (read_ulong r) (bswap 8 x) rest
unfolding read_ulong bswap
read_ulong-across r x xs ys rest e i s0 s1 more =
    let total : length xs + length ys ≡ 8 =
      sym (length-append xs ys) ∙ ap length (sym e) ∙ length-be_bytes 8 x in
    rw (total, ← e) at (read_unsigned-across r xs ys rest i s0 s1 more (omega arith))
