-- ===== src/ReadBuffer/Strings.antt =====
-- `read_string`.
use mosss.Common.{
  ℕ, zero, suc, ◌+◌, ◌^◌, ◌<◌, ◌≡◌, refl, subst, sym, ◌∙◌, List, ◌++◌, length, length-append, ok,
  err, arith, All, All-append, undefined, append_assoc, Bool-cases, inl, inr, ◌⊎◌, Option, none,
  some,
}
use mosss.Memory.{Memory, Pointer, at, advance, load, load_bytes, in_range, determinate}
use mosss.Bytes.Order.{IsByte}
use mosss.Varint.{varint, length-varint}
use mosss.ReadBuffer.{ReadBuffer, with_buf, read_string}
use mosss.ReadBuffer.Stream.{
  AtSector, Reads, AtSector-skip, skip-AtSector, Sector-distance, read_char-AtSector,
}
use mosss.ReadBuffer.Numbers.{load_bytes-Sector}
use mosss.ReadBuffer.Varints.{read_varint-varint}

-- What a string of fewer than 2 ^ 31 bytes is on the wire.
abbrev pub prefixed : List ℕ → List ℕ
prefixed bytes = varint (length bytes) ++ bytes

-- A string that lies in the sector at the cursor is read as it was sent.
pub read_string-prefixed :
    (i : ℕ) (stop : Pointer) (r : ReadBuffer) (bytes rest : List ℕ)
    → length bytes < 2 ^ 31
    → All IsByte bytes
    → All IsByte rest
    → AtSector i stop r (prefixed bytes ++ rest)
    → Reads (AtSector i stop) r (read_string r) bytes rest
unfolding read_string
read_string-prefixed i stop r bytes rest small hb hr s =
    let s' : AtSector i stop r (varint (length bytes) ++ (bytes ++ rest)) =
      subst (AtSector i stop r) (append_assoc (varint (length bytes)) bytes rest) s in
    let size =
      read_varint-varint (AtSector i stop) (read_char-AtSector i stop) r (length bytes)
        (bytes ++ rest) (omega arith) (All-append IsByte bytes rest hb hr) s' in
    record {
      after = with_buf size.after.cursor_index size.after (advance size.view.iv.buf (length bytes));
      returns = ground (
        arith,
        s.at_cursor,
        Sector-distance s.iv (prefixed bytes ++ rest) s.sector,
        size.returns,
        length-append (prefixed bytes) rest,
        length-append (varint (length bytes)) bytes,
        size.view.at_cursor,
        load_bytes-Sector size.view.iv bytes rest size.view.sector,
      );
      view = AtSector-skip i stop size.after bytes rest size.view;
      heap =
          (skip-AtSector i stop (length bytes) size.after (bytes ++ rest) size.view).1 ∙ size.heap;
    }

at_block : {b c o n : ℕ} → at b o ≡ at c n → b ≡ c
at_block e = ground arith

at_offset : {b c o n : ℕ} → at b o ≡ at c n → o ≡ n
at_offset e = ground arith

determinate_cases :
    (c : Option ℕ) → ((x : ℕ) × (determinate c ≡ ok x)) ⊎ (determinate c ≡ err undefined)
determinate_cases none = inr refl
determinate_cases (some x) = inl (x, refl)

-- A load gives a byte of the block or is undefined.
load_cases :
    (m : Memory) (b o : ℕ)
    → ((x : ℕ) × (load m (at b o) ≡ ok x) × (o < (m.block b).size))
      ⊎ (load m (at b o) ≡ err undefined)
unfolding load
load_cases m b o = elim (Bool-cases (in_range m b o)) [
  | inl inside ↦ elim (determinate_cases ((m.block b).cells o)) [
    | inl (x, e) ↦ inl (x, rw inside e, unfold in_range in ground arith)
    | inr e ↦ inr (rw inside e)
  ]
  | inr outside ↦ inr (rw outside)
]

-- Loading past the end of a block is undefined.
load_bytes_past :
    (m : Memory) (b o n : ℕ)
    → 0 < n
    → (m.block b).size < o + n
    → load_bytes m (at b o) n ≡ err undefined
unfolding load_bytes
load_bytes_past m b o zero pos past = absurd (omega arith)
load_bytes_past m b o (suc n) pos past = elim (load_cases m b o) [
  | inl (x, e, inside) ↦ rw (e, load_bytes_past m b (o + 1) n (omega arith) (omega arith))
  | inr e ↦ rw e
]

-- A string whose bytes go on behind the sector at the cursor, which ends where its block ends, is
-- never read: the room in the sector was taken before the prefix was read, and the bytes that are
-- copied or taken reach past the end of the block.
pub read_string-undefined :
    (i : ℕ) (stop : Pointer) (r : ReadBuffer) (n : ℕ) (front : List ℕ)
    (s : AtSector i stop r (varint n ++ front))
    → n < 2 ^ 31
    → All IsByte front
    → length front < n
    → (r.heap.block s.sector.block).size ≡ s.sector.offset + length (varint n ++ front)
    → read_string r ≡ err undefined
unfolding read_string
read_string-undefined i stop r n front s small bytes cut full =
    let size =
      read_varint-varint (AtSector i stop) (read_char-AtSector i stop) r n front (omega arith) bytes
        s in
    let t = size.view in
    let same : at t.sector.block (t.sector.offset + length front)
        ≡ at s.sector.block (s.sector.offset + length (varint n ++ front)) =
      sym t.sector.end ∙ t.stops ∙ sym s.stops ∙ s.sector.end in
    let block : t.sector.block ≡ s.sector.block = at_block same in
    let total : (size.after.heap.block t.sector.block).size ≡ t.sector.offset + length front =
      rw (size.heap, block) (full ∙ sym (at_offset same)) in
    let whole = length (varint n ++ front) in
    let at_t : load_bytes size.after.heap t.iv.buf n ≡ err undefined = rw t.sector.buf (
      load_bytes_past size.after.heap t.sector.block t.sector.offset n (omega arith)
        (omega arith)) in
    let at_t_whole : load_bytes size.after.heap t.iv.buf whole ≡ err undefined = rw t.sector.buf (
      load_bytes_past size.after.heap t.sector.block t.sector.offset whole
        (omega (arith, length-append (varint n) front, length-varint n))
        (omega (arith, length-append (varint n) front, length-varint n))) in
    ground (
      arith,
      s.at_cursor,
      Sector-distance s.iv (varint n ++ front) s.sector,
      size.returns,
      t.at_cursor,
      at_t,
      at_t_whole,
    )
