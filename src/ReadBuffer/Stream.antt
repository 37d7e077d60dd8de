-- ===== src/ReadBuffer/Stream.antt =====
-- The bytes that are still to be read, as one stream over both buffers, and `read_char` on it.
use mosss.Common.{
  ℕ, zero, suc, ◌+◌, ◌^◌, ◌<◌, ◌≡◌, refl, ap, subst, sym, ◌∙◌, List, [], ◌∷◌, ◌++◌, length,
  length-append, Result, ok, arith,
}
use mosss.Memory.{Pointer, at, Memory, advance, distance, load}
use mosss.Memory.Holds.{Holds, append-Holds}
use mosss.ReadBuffer.{
  Ivec, ReadBuffer, cursor, nth_ivec, with_buf, read_char, skip, sector_remaining,
}

-- Between `buf` and `end` of a sector stand the bytes `xs`.
pub record Sector (m : Memory) (iv : Ivec) (xs : List ℕ) : Type 0 where
  pub block : ℕ
  pub offset : ℕ
  pub buf : iv.buf ≡ at block offset
  pub end : iv.end ≡ at block (offset + length xs)
  pub fits : offset + length xs < 2 ^ 64
  pub holds : Holds m (at block offset) xs

-- What the buffer has yet to deliver: the rest of the primary sector alone, that and the
-- secondary sector, or the rest of the secondary sector.
pub data Stream (r : ReadBuffer) (bs : List ℕ) : Type 0 where
  primary : r.cursor_index ≡ 0 → Sector r.heap r.iv0 bs → Stream r bs
  both :
      (xs ys : List ℕ)
      → r.cursor_index ≡ 0
      → Sector r.heap r.iv0 xs
      → Sector r.heap r.iv1 ys
      → bs ≡ xs ++ ys
      → Stream r bs
  secondary : r.cursor_index ≡ 1 → Sector r.heap r.iv1 bs → Stream r bs

-- A view says of a buffer which bytes it has yet to deliver.
abbrev pub View : Type 1
View = ReadBuffer → List ℕ → Type 0

-- `result` is a normal return of `a` that leaves `rest` to be read and the memory as it was.
pub record Reads (V : View) {A : Type 0} (r : ReadBuffer) (result : Result (A × ReadBuffer)) (a : A)
    (rest : List ℕ) : Type 0 where
  pub after : ReadBuffer
  pub returns : result ≡ ok (a, after)
  pub view : V after rest
  pub heap : after.heap ≡ r.heap

-- The view of the sector at the cursor alone, for cursor index `i`; the sector ends at `stop`.
pub record AtSector (i : ℕ) (stop : Pointer) (r : ReadBuffer) (bs : List ℕ) : Type 0 where
  pub iv : Ivec
  pub index : r.cursor_index ≡ i
  pub at_cursor : cursor r ≡ ok iv
  pub stops : iv.end ≡ stop
  pub sector : Sector r.heap iv bs

pub Sector-distance :
    {m : Memory} (iv : Ivec) (xs : List ℕ)
    → Sector m iv xs
    → distance iv.end iv.buf ≡ ok (length xs)
unfolding distance
Sector-distance iv xs s = rw (s.buf, s.end) (ground (arith, s.fits))

pub Sector-tail :
    {m : Memory} (iv : Ivec) (x : ℕ) (xs : List ℕ)
    → Sector m iv (x ∷ xs)
    → Sector m (record iv { buf = advance iv.buf 1 }) xs
Sector-tail iv x xs s = record {
  block = s.block;
  offset = s.offset + 1;
  buf = ap (λ p. advance p 1) s.buf;
  end = s.end ∙ ap (at s.block) (omega arith);
  fits = omega (arith, s.fits);
  holds = s.holds.1;
}

pub Sector-head :
    {m : Memory} (iv : Ivec) (x : ℕ) (xs : List ℕ) → Sector m iv (x ∷ xs) → load m iv.buf ≡ ok x
Sector-head iv x xs s = rw s.buf s.holds.0

read_char_within :
    (r : ReadBuffer) (iv : Ivec) (x : ℕ) (xs : List ℕ)
    → cursor r ≡ ok iv
    → Sector r.heap iv (x ∷ xs)
    → read_char r ≡ ok (x, with_buf r.cursor_index r (advance iv.buf 1))
unfolding read_char
read_char_within r iv x xs c s =
    ground (arith, Sector-distance iv (x ∷ xs) s, Sector-head iv x xs s)

pub read_char_across :
    (r : ReadBuffer) (x : ℕ) (xs : List ℕ)
    → r.cursor_index ≡ 0
    → Sector r.heap r.iv0 []
    → Sector r.heap r.iv1 (x ∷ xs)
    → read_char r
      ≡ ok (x, record r { cursor_index = 1; iv1 = record r.iv1 { buf = advance r.iv1.buf 1 } })
unfolding read_char
read_char_across r x xs i s0 s1 =
    ground (arith, Sector-distance r.iv0 [] s0, Sector-head r.iv1 x xs s1)

abbrev pub advanced : ReadBuffer → ReadBuffer
advanced r = record r { iv0 = record r.iv0 { buf = advance r.iv0.buf 1 } }

pub read_char_primary :
    (r : ReadBuffer) (x : ℕ) (xs : List ℕ)
    → r.cursor_index ≡ 0
    → Sector r.heap r.iv0 (x ∷ xs)
    → read_char r ≡ ok (x, advanced r)
read_char_primary r x xs i s =
    read_char_within r r.iv0 x xs (ap (λ n. nth_ivec n r) i) s
    ∙ ap (λ n. ok (x, with_buf n r (advance r.iv0.buf 1))) i

read_char_both :
    (r : ReadBuffer) (x : ℕ) (bs xs ys : List ℕ)
    → r.cursor_index ≡ 0
    → Sector r.heap r.iv0 xs
    → Sector r.heap r.iv1 ys
    → x ∷ bs ≡ xs ++ ys
    → Reads Stream r (read_char r) x bs
read_char_both r x bs [] ys i s0 s1 e =
    let s : Sector r.heap r.iv1 (x ∷ bs) = subst (Sector r.heap r.iv1) (sym e) s1 in
    record {
      after = record r { cursor_index = 1; iv1 = record r.iv1 { buf = advance r.iv1.buf 1 } };
      returns = read_char_across r x bs i s0 s;
      view = secondary refl (Sector-tail r.iv1 x bs s);
      heap = refl;
    }
read_char_both r x bs (z ∷ zs) ys i s0 s1 e = record {
  after = advanced r;
  returns = read_char_primary r z zs i s0 ∙ ap (λ y. ok (y, advanced r)) (cc);
  view = both zs ys i (Sector-tail r.iv0 z zs s0) s1 (cc);
  heap = refl;
}

-- `read_char` delivers the first byte of the stream, whichever buffer it stands in.
pub read_char-Stream :
    (r : ReadBuffer) (x : ℕ) (bs : List ℕ) → Stream r (x ∷ bs) → Reads Stream r (read_char r) x bs
read_char-Stream r x bs (primary i s) = record {
  after = advanced r;
  returns = read_char_primary r x bs i s;
  view = primary i (Sector-tail r.iv0 x bs s);
  heap = refl;
}
read_char-Stream r x bs (secondary i s) = record {
  after = record r { iv1 = record r.iv1 { buf = advance r.iv1.buf 1 } };
  returns =
      read_char_within r r.iv1 x bs (ap (λ n. nth_ivec n r) i) s
      ∙ ap (λ n. ok (x, with_buf n r (advance r.iv1.buf 1))) i;
  view = secondary i (Sector-tail r.iv1 x bs s);
  heap = refl;
}
read_char-Stream r x bs (both xs ys i s0 s1 e) = read_char_both r x bs xs ys i s0 s1 e

pub Sector-drop :
    {m : Memory} (iv : Ivec) (xs ys : List ℕ)
    → Sector m iv (xs ++ ys)
    → Sector m (record iv { buf = advance iv.buf (length xs) }) ys
Sector-drop {m} iv xs ys s = record {
  block = s.block;
  offset = s.offset + length xs;
  buf = ap (λ p. advance p (length xs)) s.buf;
  end = s.end ∙ ap (at s.block) (omega (arith, length-append xs ys));
  fits = omega (arith, s.fits, length-append xs ys);
  holds = (append-Holds m (at s.block s.offset) xs ys s.holds).1;
}

nth_ivec-with_buf :
    (i : ℕ) (r : ReadBuffer) (iv : Ivec) (p : Pointer)
    → nth_ivec i r ≡ ok iv
    → nth_ivec i (with_buf i r p) ≡ ok (record iv { buf = p })
nth_ivec-with_buf zero r iv p e = ground arith
nth_ivec-with_buf (suc zero) r iv p e = ground arith
nth_ivec-with_buf (suc (suc i)) r iv p e = cc

with_buf_keeps :
    (i : ℕ) (r : ReadBuffer) (p : Pointer)
    → ((with_buf i r p).cursor_index ≡ r.cursor_index) × ((with_buf i r p).heap ≡ r.heap)
with_buf_keeps zero r p = (refl, refl)
with_buf_keeps (suc i) r p = (refl, refl)

-- `cursor->buf` moved on behind the bytes `xs`.
pub AtSector-skip :
    (i : ℕ) (stop : Pointer) (r : ReadBuffer) (xs ys : List ℕ) (s : AtSector i stop r (xs ++ ys))
    → AtSector i stop (with_buf r.cursor_index r (advance s.iv.buf (length xs))) ys
AtSector-skip i stop r xs ys s =
    let p = advance s.iv.buf (length xs) in
    let (index, heap) = with_buf_keeps r.cursor_index r p in
    record {
      iv = record s.iv { buf = p };
      index = index ∙ s.index;
      at_cursor =
          ap (λ n. nth_ivec n (with_buf r.cursor_index r p)) index
          ∙ nth_ivec-with_buf r.cursor_index r s.iv p s.at_cursor;
      stops = s.stops;
      sector = rw heap (Sector-drop s.iv xs ys s.sector);
    }

pub skip-AtSector :
    (i : ℕ) (stop : Pointer) (n : ℕ) (r : ReadBuffer) (bs : List ℕ) (s : AtSector i stop r bs)
    → (skip r n ≡ ok (with_buf r.cursor_index r (advance s.iv.buf n)))
      × ((with_buf r.cursor_index r (advance s.iv.buf n)).heap ≡ r.heap)
unfolding skip
skip-AtSector i stop n r bs s =
    (rw s.at_cursor, (with_buf_keeps r.cursor_index r (advance s.iv.buf n)).1)

-- A read that stays in its sector.
pub read_char-AtSector :
    (i : ℕ) (stop : Pointer) (r : ReadBuffer) (x : ℕ) (bs : List ℕ)
    → AtSector i stop r (x ∷ bs)
    → Reads (AtSector i stop) r (read_char r) x bs
read_char-AtSector i stop r x bs s = record {
  after = with_buf r.cursor_index r (advance s.iv.buf 1);
  returns = read_char_within r s.iv x bs s.at_cursor s.sector;
  view = AtSector-skip i stop r (x ∷ []) bs s;
  heap = (with_buf_keeps r.cursor_index r (advance s.iv.buf 1)).1;
}

pub buffer_of : {a b : ℕ × ReadBuffer} → ok a ≡ ok b → a.1 ≡ b.1
buffer_of h = cc

-- In the primary sector a read leaves the secondary one as it is.
pub with_buf_second :
    (r : ReadBuffer) (p : Pointer) → r.cursor_index ≡ 0 → (with_buf r.cursor_index r p).iv1 ≡ r.iv1
with_buf_second r p first = ap (λ n. (with_buf n r p).iv1) first

pub read_char-second :
    (stop : Pointer) (r : ReadBuffer) (x y : ℕ) (bs : List ℕ) (r1 : ReadBuffer)
    → AtSector 0 stop r (x ∷ bs)
    → read_char r ≡ ok (y, r1)
    → r1.iv1 ≡ r.iv1
read_char-second stop r x y bs r1 s e =
    let same : ok (x, with_buf r.cursor_index r (advance s.iv.buf 1)) ≡ ok (y, r1) =
      sym (read_char_within r s.iv x bs s.at_cursor s.sector) ∙ e in
    sym (ap (λ (b : ReadBuffer). b.iv1) (buffer_of same)) ∙ with_buf_second r _ s.index

pub sector_remaining-AtSector :
    (i : ℕ) (stop : Pointer) (r : ReadBuffer) (bs : List ℕ)
    → AtSector i stop r bs
    → sector_remaining r ≡ ok (length bs)
unfolding sector_remaining
sector_remaining-AtSector i stop r bs s = rw s.at_cursor (Sector-distance s.iv bs s.sector)
