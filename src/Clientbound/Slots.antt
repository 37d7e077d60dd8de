-- ===== src/Clientbound/Slots.antt =====
-- The array of iovecs while a packet is written: the elements behind the pieces stay.
use mosss.Common.{
  ℕ, zero, suc, ◌+◌, ◌^◌, ◌≤◌, ◌<◌, ◌≡◌, refl, ◌∙◌, arith, Bool, true, false, ◌==◌, ltb, leb,
  if◌then◌else◌, Result, ok, err, ◌>>=◌, Bool-cases, inl, inr, bit_and, bit_or, ◌%◌,
}
use mosss.Memory.{Pointer, copy_bytes, delete, distance, store_bytes, advance}
use mosss.Memory.Copy.{update_ne}
use mosss.Bytes.{sar7_32, bswap, le_bytes}
use mosss.ReadBuffer.{Uuid}
use mosss.WriteBuffer.{
  WriteBuffer, utilized_size, sector_remaining, buffer_size, sector_size, buffer_resize,
  ensure_capacity, iov_resize, write_le, write_byte, write_varint_loop, write_varint, write_uuid,
  write_iov, write_bytes, write_string,
}
use mosss.Connection.Keeps.{Ensures, fails, returns}

-- At most `n` pieces were added, and the array is the same behind them.
pub record Slots (n : ℕ) (w after : WriteBuffer) : Type 0 where
  pub size : after.iov_size ≡ w.iov_size
  pub count : after.iov_cursor ≤ w.iov_cursor + n
  pub up : w.iov_cursor ≤ after.iov_cursor
  pub behind : (k : ℕ) → 0 < k → after.iov_cursor ≤ k → after.iov k ≡ w.iov k

abbrev pub Adds : ℕ → WriteBuffer → Result WriteBuffer → Type 0
Adds n w r = Ensures (Slots n w) r

pub same-Slots : (w : WriteBuffer) → Slots 0 w w
same-Slots w = record { size = refl; count = omega arith; up = omega arith; behind = λ k p h. refl }

pub Slots-trans :
    {n m : ℕ} {w w1 w2 : WriteBuffer} → Slots n w w1 → Slots m w1 w2 → Slots (n + m) w w2
Slots-trans a b = record {
  size = b.size ∙ a.size;
  count = omega (arith, a.count, b.count);
  up = omega (arith, a.up, b.up);
  behind = λ k p h. b.behind k p h ∙ a.behind k p (omega (arith, b.up));
}

pub Slots-most : {n m : ℕ} {w w1 : WriteBuffer} → n ≤ m → Slots n w w1 → Slots m w w1
Slots-most h a = record {
  size = a.size;
  count = omega (arith, a.count);
  up = a.up;
  behind = a.behind;
}

pub map_each :
    {A : Type 0} {P Q : A → Type 0} {r : Result A}
    → ((a : A) → P a → Q a)
    → Ensures P r
    → Ensures Q r
map_each f fails = fails
map_each f (returns {a = a} p) = returns (f a p)

pub then_each :
    {A B : Type 0} {P : A → Type 0} {Q : B → Type 0} {r : Result A} (k : A → Result B)
    → Ensures P r
    → ((a : A) → P a → Ensures Q (k a))
    → Ensures Q (r >>= k)
then_each k fails f = fails
then_each k (returns {a = a} p) f = f a p

pub then_any :
    {A B : Type 0} {Q : B → Type 0} (r : Result A) (k : A → Result B)
    → ((a : A) → Ensures Q (k a))
    → Ensures Q (r >>= k)
then_any (ok a) k f = f a
then_any (err e) k f = fails

-- One write after the other.
pub Adds->>= :
    {n m : ℕ} {w : WriteBuffer} {r : Result WriteBuffer} (k : WriteBuffer → Result WriteBuffer)
    → Adds n w r
    → ((w1 : WriteBuffer) → Slots n w w1 → Adds m w1 (k w1))
    → Adds (n + m) w (r >>= k)
Adds->>= k a f = then_each k a λ w1 s. map_each (λ w2 t. Slots-trans s t) (f w1 s)

pub if_both :
    {A : Type 0} {P : A → Type 0} (test : Bool) {x y : Result A}
    → Ensures P x
    → Ensures P y
    → Ensures P (if test then x else y)
if_both true hx hy = hx
if_both false hx hy = hy

buffer_resize-Adds : (n : ℕ) (w : WriteBuffer) → Adds 0 w (buffer_resize n w)
unfolding buffer_resize
buffer_resize-Adds n w = then_any (utilized_size w) _ λ used.
    then_any (copy_bytes _ _ w.buf _) _ λ m1. then_any (distance w.sector_start w.buf) _ λ start.
      then_any (distance w.cursor w.buf) _ λ position. then_any (delete m1 w.buf) _ λ m2.
        returns
          (record { size = refl; count = omega arith; up = omega arith; behind = λ k p h. refl })

ensure_capacity-Adds : (n : ℕ) (w : WriteBuffer) → Adds 0 w (ensure_capacity n w)
unfolding ensure_capacity
ensure_capacity-Adds n w = then_any (sector_remaining w) _ λ remaining.
    then_any (buffer_size w) _
      λ size. if_both (ltb remaining n) (buffer_resize-Adds _ w) (returns (same-Slots w))

write_le-Adds : (n x : ℕ) (w : WriteBuffer) → Adds 0 w (write_le n x w)
unfolding write_le
write_le-Adds n x w = then_each _ (ensure_capacity-Adds n w) λ w1 s.
    then_any (store_bytes w1.heap w1.cursor (le_bytes n x)) _
      λ m. returns (record { size = s.size; count = s.count; up = s.up; behind = s.behind })

pub write_byte-Adds : (x : ℕ) (w : WriteBuffer) → Adds 0 w (write_byte x w)
unfolding write_byte
write_byte-Adds x w = write_le-Adds 1 x w

pub write_uuid-Adds : (u : Uuid) (w : WriteBuffer) → Adds 0 w (write_uuid u w)
unfolding write_uuid
write_uuid-Adds u w = then_each _ (ensure_capacity-Adds 16 w) λ w1 s.
    then_any (store_bytes w1.heap w1.cursor (le_bytes 8 (bswap 8 u.most))) _ λ m1.
      then_any (store_bytes m1 (advance w1.cursor 8) (le_bytes 8 (bswap 8 u.least))) _
        λ m2. returns (record { size = s.size; count = s.count; up = s.up; behind = s.behind })

write_varint_loop-Adds :
    (mask : ℕ) (sar7 : ℕ → ℕ) (fuel x : ℕ) (w : WriteBuffer)
    → Adds 0 w (write_varint_loop mask sar7 fuel x w)
unfolding write_varint_loop
write_varint_loop-Adds mask sar7 zero x w = fails
write_varint_loop-Adds mask sar7 (suc fuel) x w = elim (Bool-cases (bit_and x mask == 0)) [
  | inl last ↦ rw last (write_byte-Adds (x % 256) w)
  | inr more ↦ rw more (
      Adds->>= (write_varint_loop mask sar7 fuel (sar7 x))
        (write_byte-Adds (bit_or (bit_and x 0x7f) 0x80) w)
        λ w1 s. write_varint_loop-Adds mask sar7 fuel (sar7 x) w1)
]

pub write_iov-Adds : (p : Pointer) (n : ℕ) (w : WriteBuffer) → Adds 1 w (write_iov p n w)
unfolding write_iov
write_iov-Adds p n w = elim (Bool-cases (ltb w.iov_cursor w.iov_size)) [
  | inl below ↦ rw below (
      returns (record {
        size = refl;
        count = omega arith;
        up = omega arith;
        behind = λ k pos h. update_ne w.iov w.iov_cursor k _ (λ e. absurd (omega arith));
      }))
  | inr above ↦ rw above fails
]

pub resize-Adds :
    (w : WriteBuffer) (needed size : ℕ)
    → needed < w.iov_size
    → Adds 0 w (if leb w.iov_size needed then iov_resize size w else ok w)
resize-Adds w needed size h =
    let stays : leb w.iov_size needed ≡ false = ground arith in rw stays (returns (same-Slots w))

-- The first piece has the sector, or nothing where there are no bytes in it.
abbrev opening : ℕ → WriteBuffer → Result WriteBuffer
opening sector_len w =
    if ltb 0 sector_len
    then write_iov w.sector_start sector_len w
    else if w.iov_cursor == 0
    then write_iov w.sector_start 0 w
    else ok w

opening-Adds : (sector_len : ℕ) (w : WriteBuffer) → Adds 1 w (opening sector_len w)
opening-Adds sector_len w = if_both (ltb 0 sector_len) (write_iov-Adds _ sector_len w) (
    if_both (w.iov_cursor == 0) (write_iov-Adds _ 0 w)
      (returns (Slots-most (omega arith) (same-Slots w))))

write_bytes-Adds :
    (p : Pointer) (n : ℕ) (w : WriteBuffer)
    → w.iov_cursor + 2 < w.iov_size
    → Adds 2 w (write_bytes p n w)
unfolding write_bytes
write_bytes-Adds p n w room = if_both (n == 0) (returns (Slots-most (omega arith) (same-Slots w))) (
    then_any (sector_size w) _ λ sector_len.
      let needed = w.iov_cursor + 1 + (if ltb 0 sector_len then 1 else 0) in
      let few : needed < w.iov_size = ground arith in
      Adds->>= (λ w1. opening sector_len w1 >>= write_iov p n)
        (resize-Adds w needed (w.iov_cursor + 2) few)
        λ w1 s. Adds->>= (write_iov p n) (opening-Adds sector_len w1) λ w2 t. write_iov-Adds p n w2)

pub write_string-Adds :
    (p : Pointer) (n : ℕ) (w : WriteBuffer)
    → w.iov_cursor + 2 < w.iov_size
    → Adds 2 w (write_string p n w)
unfolding write_string write_varint
write_string-Adds p n w room =
    Adds->>= (write_bytes p n) (write_varint_loop-Adds _ sar7_32 5 (n % 2 ^ 32) w)
      λ w1 s. write_bytes-Adds p n w1 (omega (arith, s.size, s.count))
