-- ===== src/ReadBuffer/Overflow.antt =====
-- `BufferOverflowException`, which no read of a buffer throws.
use mosss.Common.{
  ℕ, zero, suc, ◌+◌, ◌-◌, ◌%◌, ◌^◌, ◌≤◌, ◌≡◌, ◌≢◌, refl, ap, List, Result, ok, err, arith, ltb,
  le→ltb, true, false, bit_and, malformed_varint, length_error, undefined, buffer_overflow, ◌>>=◌,
  >>=-eq-ok, Bool, if◌then◌else◌, ◌==◌, Option, none, some,
}
use mosss.Memory.{
  Memory, Pointer, null, at, advance, load, distance, load_bytes, in_range, determinate,
}
use mosss.ReadBuffer.{
  Ivec, ReadBuffer, cursor, nth_ivec, with_buf, skip, sector_remaining, next_cursor, read_char,
  read_varint_last, read_varint_loop, read_varint, read_unsigned, read_ulong, read_ushort,
  read_uuid, read_string, read_across_buffers, put_group, continue_bit,
}
use mosss.Bytes.{from_le, bswap, sign_extend}

-- The results of reading from a buffer whose cursor is on one of the two sectors: no
-- `BufferOverflowException`, and the cursor stays on one of the two.
abbrev pub NoOverflow {ℓ} : {A : Type ℓ} → Result (A × ReadBuffer) → Type 0
NoOverflow (ok (a, r)) = r.cursor_index ≤ 1
NoOverflow (err e) = e ≢ buffer_overflow

>>=-NoOverflow {ℓ κ} :
    {A : Type ℓ} {B : Type κ} (m : Result (A × ReadBuffer))
    (f : A × ReadBuffer → Result (B × ReadBuffer))
    → NoOverflow m
    → ((a : A) (r : ReadBuffer) → r.cursor_index ≤ 1 → NoOverflow (f (a, r)))
    → NoOverflow (m >>= f)
>>=-NoOverflow (ok (a, r)) f h k = k a r h
>>=-NoOverflow (err e) f h k = h

-- A step that does not touch the buffer.
abbrev NoThrow {ℓ} : {A : Type ℓ} → Result A → Type 0
NoThrow (ok a) = Unit {0}
NoThrow (err e) = e ≢ buffer_overflow

NoOverflow->>= {ℓ κ} :
    {A : Type ℓ} {B : Type κ} (m : Result A) (f : A → Result (B × ReadBuffer))
    → NoThrow m
    → ((a : A) → m ≡ ok a → NoOverflow (f a))
    → NoOverflow (m >>= f)
NoOverflow->>= (ok a) f h k = k a refl
NoOverflow->>= (err e) f h k = h

NoThrow->>= {ℓ κ} :
    {A : Type ℓ} {B : Type κ} (m : Result A) (f : A → Result B)
    → NoThrow m
    → ((a : A) → m ≡ ok a → NoThrow (f a))
    → NoThrow (m >>= f)
NoThrow->>= (ok a) f h k = k a refl
NoThrow->>= (err e) f h k = h

undefined-NoThrow : undefined ≢ buffer_overflow
undefined-NoThrow e = cc

NoThrow-if {ℓ} :
    {A : Type ℓ} (b : Bool) (x y : Result A) → NoThrow x → NoThrow y → NoThrow (if b then x else y)
NoThrow-if true x y hx hy = hx
NoThrow-if false x y hx hy = hy

NoOverflow-if {ℓ} :
    {A : Type ℓ} (b : Bool) (x y : Result (A × ReadBuffer))
    → NoOverflow x
    → NoOverflow y
    → NoOverflow (if b then x else y)
NoOverflow-if true x y hx hy = hx
NoOverflow-if false x y hx hy = hy

load-NoThrow : (m : Memory) (p : Pointer) → NoThrow (load m p)
unfolding load
load-NoThrow m null = undefined-NoThrow
load-NoThrow m (at b o) =
    NoThrow-if (in_range m b o) (determinate ((m.block b).cells o)) (err undefined)
      (cell ((m.block b).cells o)) undefined-NoThrow
  where
    cell : (c : Option ℕ) → NoThrow (determinate c)
    cell none = undefined-NoThrow
    cell (some x) = tt

load_bytes-NoThrow : (n : ℕ) (m : Memory) (p : Pointer) → NoThrow (load_bytes m p n)
unfolding load_bytes
load_bytes-NoThrow zero m p = tt
load_bytes-NoThrow (suc n) m p = NoThrow->>= (load m p) _ (load-NoThrow m p) λ x _.
    NoThrow->>= (load_bytes m (advance p 1) n) _ (load_bytes-NoThrow n m (advance p 1)) λ xs _. tt

distance-NoThrow : (p q : Pointer) → NoThrow (distance p q)
unfolding distance
distance-NoThrow null null = tt
distance-NoThrow null (at b o) = undefined-NoThrow
distance-NoThrow (at b o) null = undefined-NoThrow
distance-NoThrow (at b o) (at c n) =
    NoThrow-if (b == c) (ok ((o + 2 ^ 64 - n) % 2 ^ 64)) (err undefined) tt undefined-NoThrow

nth_ivec-NoThrow : (i : ℕ) (r : ReadBuffer) → NoThrow (nth_ivec i r)
nth_ivec-NoThrow zero r = tt
nth_ivec-NoThrow (suc zero) r = tt
nth_ivec-NoThrow (suc (suc i)) r = undefined-NoThrow

nth_ivec-index : (i : ℕ) (r : ReadBuffer) (iv : Ivec) → nth_ivec i r ≡ ok iv → i ≤ 1
nth_ivec-index zero r iv e = omega arith
nth_ivec-index (suc zero) r iv e = omega arith
nth_ivec-index (suc (suc i)) r iv e = cc

with_buf-index :
    (i : ℕ) (r : ReadBuffer) (p : Pointer) → (with_buf i r p).cursor_index ≡ r.cursor_index
with_buf-index zero r p = refl
with_buf-index (suc i) r p = refl

skip-NoThrow : (r : ReadBuffer) (n : ℕ) → NoThrow (skip r n)
unfolding skip
skip-NoThrow r n = NoThrow->>= (cursor r) _ (nth_ivec-NoThrow r.cursor_index r) λ c _. tt

ok-injective {ℓ} : {A : Type ℓ} {a b : A} → ok a ≡ ok b → a ≡ b
ok-injective e = cc

skip-index : (r r1 : ReadBuffer) (n : ℕ) → skip r n ≡ ok r1 → r1.cursor_index ≤ 1
unfolding skip
skip-index r r1 n e =
    let (c, at_cursor, same) =
      >>=-eq-ok (cursor r) (λ c. ok (with_buf r.cursor_index r (advance c.buf n))) e in
    let low = nth_ivec-index r.cursor_index r c at_cursor in
    let kept = with_buf-index r.cursor_index r (advance c.buf n) in
    omega (arith, low, kept, ap (λ (q : ReadBuffer). q.cursor_index) (ok-injective same))

sector_remaining-NoThrow : (r : ReadBuffer) → NoThrow (sector_remaining r)
unfolding sector_remaining
sector_remaining-NoThrow r =
    NoThrow->>= (cursor r) _ (nth_ivec-NoThrow r.cursor_index r) λ c _. distance-NoThrow c.end c.buf

next_cursor-NoThrow : (r : ReadBuffer) → r.cursor_index ≤ 1 → NoThrow (next_cursor r)
unfolding next_cursor
next_cursor-NoThrow r h = rw (le→ltb 2 (r.cursor_index + 1) (omega arith)) tt

-- The access and the step after a possible change of the cursor.
read_char-NoOverflow : (r : ReadBuffer) → r.cursor_index ≤ 1 → NoOverflow (read_char r)
unfolding read_char
read_char-NoOverflow r h =
    NoOverflow->>= (sector_remaining r) _ (sector_remaining-NoThrow r) λ remaining _.
      NoOverflow->>= (if ltb remaining 1 then next_cursor r else ok r) _
        (NoThrow-if (ltb remaining 1) (next_cursor r) (ok r) (next_cursor-NoThrow r h) tt)
        λ r1 _. NoOverflow->>= (cursor r1) _ (nth_ivec-NoThrow r1.cursor_index r1) λ c _.
          NoOverflow->>= (load r1.heap c.buf) _ (load-NoThrow r1.heap c.buf)
            λ x _. NoOverflow->>= (skip r1 1) _ (skip-NoThrow r1 1) λ r2 e. skip-index r1 r2 1 e

read_varint_last-NoOverflow :
    (value position : ℕ) (r : ReadBuffer)
    → r.cursor_index ≤ 1
    → NoOverflow (read_varint_last value position r)
unfolding read_varint_last
read_varint_last-NoOverflow value position r h =
    >>=-NoOverflow (read_char r) _ (read_char-NoOverflow r h) λ c r1 h1.
      NoOverflow-if (bit_and c 0xf0 == 0) (ok (put_group value c position, r1))
        (err malformed_varint) h1 (λ e. cc)

read_varint_loop-NoOverflow :
    (fuel value position : ℕ) (r : ReadBuffer)
    → r.cursor_index ≤ 1
    → NoOverflow (read_varint_loop fuel value position r)
unfolding read_varint_loop
read_varint_loop-NoOverflow zero value position r h = λ e. cc
read_varint_loop-NoOverflow (suc fuel) value position r h =
    >>=-NoOverflow (read_char r) _ (read_char-NoOverflow r h) λ c r1 h1.
      NoOverflow-if (bit_and c continue_bit == 0) (ok (put_group value c position, r1)) _ h1 (
        NoOverflow-if (ltb 21 (position + 7)) _ _
          (read_varint_last-NoOverflow (put_group value c position) (position + 7) r1 h1)
          (read_varint_loop-NoOverflow fuel (put_group value c position) (position + 7) r1 h1))

read_varint-NoOverflow : (r : ReadBuffer) → r.cursor_index ≤ 1 → NoOverflow (read_varint r)
unfolding read_varint
read_varint-NoOverflow r h = read_varint_loop-NoOverflow 4 0 0 r h

read_across_buffers-NoOverflow :
    (remaining sizeof_type : ℕ) (r : ReadBuffer)
    → r.cursor_index ≤ 1
    → NoOverflow (read_across_buffers remaining sizeof_type r)
unfolding read_across_buffers
read_across_buffers-NoOverflow remaining sizeof_type r h =
    let into = (sizeof_type + 2 ^ 64 - remaining) % 2 ^ 64 in
    NoOverflow->>= (cursor r) _ (nth_ivec-NoThrow r.cursor_index r) λ c _.
      NoOverflow->>= (load_bytes r.heap c.buf remaining) _
        (load_bytes-NoThrow remaining r.heap c.buf)
        λ front _. NoOverflow->>= (next_cursor r) _ (next_cursor-NoThrow r h) λ r1 _.
          NoOverflow->>= (cursor r1) _ (nth_ivec-NoThrow r1.cursor_index r1) λ d _.
            NoOverflow->>= (load_bytes r1.heap d.buf into) _ (load_bytes-NoThrow into r1.heap d.buf)
              λ back _.
                NoOverflow->>= (skip r1 into) _ (skip-NoThrow r1 into)
                  λ r2 e. skip-index r1 r2 into e

-- What the reads of a fixed size and of a string do inside one sector.
take_within-NoOverflow :
    (n : ℕ) (r : ReadBuffer) {A : Type 0} (f : List ℕ → A)
    → NoOverflow (
        cursor r >>= λ c.
        load_bytes r.heap c.buf n >>= λ bytes. skip r n >>= λ r1. ok (f bytes, r1))
take_within-NoOverflow n r f =
    NoOverflow->>= (cursor r) _ (nth_ivec-NoThrow r.cursor_index r) λ c _.
      NoOverflow->>= (load_bytes r.heap c.buf n) _ (load_bytes-NoThrow n r.heap c.buf)
        λ bytes _. NoOverflow->>= (skip r n) _ (skip-NoThrow r n) λ r1 e. skip-index r r1 n e

read_unsigned-NoOverflow :
    (n : ℕ) (r : ReadBuffer) → r.cursor_index ≤ 1 → NoOverflow (read_unsigned n r)
unfolding read_unsigned
read_unsigned-NoOverflow n r h =
    NoOverflow->>= (sector_remaining r) _ (sector_remaining-NoThrow r) λ remaining _.
      NoOverflow-if (ltb remaining n) _ _
        (>>=-NoOverflow (read_across_buffers remaining n r) _
          (read_across_buffers-NoOverflow remaining n r h) λ bytes r1 h1. h1)
        (take_within-NoOverflow n r (λ bytes. bswap n (from_le bytes)))

read_ulong-NoOverflow : (r : ReadBuffer) → r.cursor_index ≤ 1 → NoOverflow (read_ulong r)
unfolding read_ulong
read_ulong-NoOverflow r h = read_unsigned-NoOverflow 8 r h

read_string-NoOverflow : (r : ReadBuffer) → r.cursor_index ≤ 1 → NoOverflow (read_string r)
unfolding read_string
read_string-NoOverflow r h =
    NoOverflow->>= (sector_remaining r) _ (sector_remaining-NoThrow r) λ remaining _.
      >>=-NoOverflow (read_varint r) _ (read_varint-NoOverflow r h) λ size r1 h1.
        NoOverflow-if (ltb remaining (sign_extend size)) _ _
          (NoOverflow-if (ltb (2 ^ 63 - 1) (sign_extend size)) (err length_error) _ (λ e. cc)
            (read_across_buffers-NoOverflow remaining (sign_extend size) r1 h1))
          (take_within-NoOverflow (sign_extend size) r1 (λ bytes. bytes))

-- No read throws `BufferOverflowException`, and each that returns leaves the cursor on one of the
-- two sectors, where the next one starts.
pub reads-NoOverflow :
    (r : ReadBuffer)
    → r.cursor_index ≤ 1
    → NoOverflow (read_char r)
      × NoOverflow (read_varint r)
      × NoOverflow (read_ushort r)
      × NoOverflow (read_ulong r)
      × NoOverflow (read_string r)
      × NoOverflow (read_uuid r)
unfolding read_ushort read_uuid
reads-NoOverflow r h = (
  read_char-NoOverflow r h,
  read_varint-NoOverflow r h,
  read_unsigned-NoOverflow 2 r h,
  read_ulong-NoOverflow r h,
  read_string-NoOverflow r h,
  >>=-NoOverflow (read_ulong r) _ (read_ulong-NoOverflow r h) λ most r1 h1.
      >>=-NoOverflow (read_ulong r1) _ (read_ulong-NoOverflow r1 h1) λ least r2 h2. h2,
)
