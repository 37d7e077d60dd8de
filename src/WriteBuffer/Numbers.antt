-- ===== src/WriteBuffer/Numbers.antt =====
-- The writes of integers, floating-point values and identifiers.
use mosss.Common.{
  ℕ, suc, ◌+◌, ◌%◌, ◌≡◌, refl, sym, ap, subst, ◌∙◌, List, [], ◌∷◌, ◌++◌, length, ok, err, arith,
  true, false, Result, length-append, if◌then◌else◌, ◌>>=◌, Bool, >>=_assoc, >>=-eq-ok, ap₂,
}
use mosss.Memory.{Pointer, Memory, advance, store, store_bytes}
use mosss.Memory.Holds.{advance-advance, advance-zero, advance-suc}
use mosss.Bytes.{le_bytes, bswap}
use mosss.Bytes.Order.{be_bytes, length-le_bytes, le_bytes-bswap, length-be_bytes}
use mosss.ReadBuffer.{Uuid}
use mosss.WriteBuffer.{
  WriteBuffer, write_le, write_byte, write_bool, write_short, write_int, write_long, write_float,
  write_double, write_short_le, write_int_le, write_long_le, write_float_le, write_double_le,
  write_uuid,
}
use mosss.WriteBuffer.Invariant.{Inv}
use mosss.WriteBuffer.Capacity.{CanWrite, ensure_capacity-Ensured}
use mosss.WriteBuffer.Put.{Appended, Appended_put, CanWrite_less}

pub write_le_lem :
    {w : WriteBuffer} {sent sector : List ℕ} (i : Inv w sent sector) (n x : ℕ)
    → CanWrite i n
    → Appended i n (write_le n x w) (le_bytes n x)
unfolding write_le
write_le_lem {w} i n x can =
    let e = ensure_capacity-Ensured i n can in
    let long = length-le_bytes n x in
    Appended_put (le_bytes n x) e long (write_le n x w) (λ m h.
      rw (e.returns, h)
        (ap (λ k. ok (record e.after { heap = m; cursor = advance e.after.cursor k })) (sym long)))

pub write_byte_lem :
    {w : WriteBuffer} {sent sector : List ℕ} (i : Inv w sent sector) (x : ℕ)
    → CanWrite i 1
    → Appended i 1 (write_byte x w) ((x % 256) ∷ [])
unfolding write_byte le_bytes
write_byte_lem i x can = write_le_lem i 1 x can

write_swapped :
    {w : WriteBuffer} {sent sector : List ℕ} (i : Inv w sent sector) (n x : ℕ)
    → CanWrite i n
    → Appended i n (write_le n (bswap n x) w) (be_bytes n x)
write_swapped {w} i n x can =
    subst (λ bytes. Appended i n (write_le n (bswap n x) w) bytes) (le_bytes-bswap n x)
      (write_le_lem i n (bswap n x) can)

-- Where there is room for eight bytes, or no piece yet, the writes of a `short`, an `int`, a `long`,
-- a `float` and a `double` return, and add the value's bytes to the sector, the most significant
-- byte first; what was written before and the caller's memory are kept.
pub write_numbers-be_bytes :
    {w : WriteBuffer} {sent sector : List ℕ} (i : Inv w sent sector) (x : ℕ)
    → CanWrite i 8
    → (Appended i 2 (write_short x w) (be_bytes 2 x))
      × (Appended i 4 (write_int x w) (be_bytes 4 x))
      × (Appended i 8 (write_long x w) (be_bytes 8 x))
      × (Appended i 4 (write_float x w) (be_bytes 4 x))
      × (Appended i 8 (write_double x w) (be_bytes 8 x))
unfolding write_short write_int write_long write_float write_double write_short_le write_int_le
    write_long_le write_float_le write_double_le
write_numbers-be_bytes i x can =
    let two = CanWrite_less 2 8 (omega arith) can in
    let four = CanWrite_less 4 8 (omega arith) can in
    (
      write_swapped i 2 x two,
      write_swapped i 4 x four,
      write_swapped i 8 x can,
      write_swapped i 4 x four,
      write_swapped i 8 x can,
    )

pub write_bool_lem :
    {w : WriteBuffer} {sent sector : List ℕ} (i : Inv w sent sector) (b : Bool)
    → CanWrite i 1
    → Appended i 1 (write_bool b w) ((if b then 1 else 0) ∷ [])
unfolding write_bool
write_bool_lem i true can = write_byte_lem i 1 can
write_bool_lem i false can = write_byte_lem i 0 can

-- The same writes without the swap of the bytes, and `write_bool`.
pub write_numbers_le-le_bytes :
    {w : WriteBuffer} {sent sector : List ℕ} (i : Inv w sent sector) (x : ℕ) (b : Bool)
    → CanWrite i 8
    → (Appended i 2 (write_short_le x w) (le_bytes 2 x))
      × (Appended i 4 (write_int_le x w) (le_bytes 4 x))
      × (Appended i 8 (write_long_le x w) (le_bytes 8 x))
      × (Appended i 4 (write_float_le x w) (le_bytes 4 x))
      × (Appended i 8 (write_double_le x w) (le_bytes 8 x))
      × (Appended i 1 (write_bool b w) ((if b then 1 else 0) ∷ []))
unfolding write_short_le write_int_le write_long_le write_float_le write_double_le
write_numbers_le-le_bytes {w} i x b can =
    let two = CanWrite_less 2 8 (omega arith) can in
    let four = CanWrite_less 4 8 (omega arith) can in
    let one = CanWrite_less 1 8 (omega arith) can in
    (
      write_le_lem i 2 x two,
      write_le_lem i 4 x four,
      write_le_lem i 8 x can,
      write_le_lem i 4 x four,
      write_le_lem i 8 x can,
      write_bool_lem i b one,
    )

store_bytes-append :
    (m : Memory) (p : Pointer) (xs ys : List ℕ)
    → (store_bytes m p xs >>= λ m1. store_bytes m1 (advance p (length xs)) ys)
      ≡ store_bytes m p (xs ++ ys)
unfolding store_bytes
store_bytes-append m p [] ys = ap (λ q. store_bytes m q ys) (advance-zero p)
store_bytes-append m p (x ∷ xs) ys =
    >>=_assoc (store m p x) (λ m1. store_bytes m1 (advance p 1) xs) _
    ∙ rest (λ m1. store_bytes-append m1 (advance p 1) xs ys) (store m p x)
  where
    rest :
        ((m1 : Memory)
          → (store_bytes m1 (advance p 1) xs >>= λ m2.
              store_bytes m2 (advance (advance p 1) (length xs)) ys)
            ≡ store_bytes m1 (advance p 1) (xs ++ ys))
        → (r : Result Memory)
        → (r >>= λ m1. store_bytes m1 (advance p 1) xs >>= λ m2.
            store_bytes m2 (advance p (suc (length xs))) ys)
          ≡ (r >>= λ m1. store_bytes m1 (advance p 1) (xs ++ ys))
    rest ih (ok m1) =
        ap (λ q. store_bytes m1 (advance p 1) xs >>= λ m2. store_bytes m2 q ys)
          (sym (advance-suc p (length xs)))
        ∙ ih m1
    rest ih (err e) = refl

-- Where there is room for 16 bytes, or no piece yet, `write_uuid` returns, and adds the most
-- significant half and then the least significant half to the sector, each with its most
-- significant byte first.
pub write_uuid-be_bytes :
    {w : WriteBuffer} {sent sector : List ℕ} (i : Inv w sent sector) (uuid : Uuid)
    → CanWrite i 16
    → Appended i 16 (write_uuid uuid w) ((be_bytes 8 uuid.most ++ be_bytes 8 uuid.least))
unfolding write_uuid
write_uuid-be_bytes {w} i uuid can =
    let e = ensure_capacity-Ensured i 16 can in
    let xs = be_bytes 8 uuid.most in
    let ys = be_bytes 8 uuid.least in
    let long : length (xs ++ ys) ≡ 16 =
      length-append xs ys
      ∙ ap₂ (λ (a b : ℕ). a + b) (length-be_bytes 8 uuid.most) (length-be_bytes 8 uuid.least) in
    Appended_put (xs ++ ys) e long (write_uuid uuid w) (λ m h.
      let (m1, one, two) =
        >>=-eq-ok (store_bytes e.after.heap e.after.cursor xs) _
          (store_bytes-append e.after.heap e.after.cursor xs ys ∙ h) in
      let two8 =
        subst (λ n. store_bytes m1 (advance e.after.cursor n) ys ≡ ok m)
          (length-be_bytes 8 uuid.most) two in
      rw (e.returns, le_bytes-bswap 8 uuid.most, le_bytes-bswap 8 uuid.least, one, two8)
        (ap (λ p. ok (record e.after { heap = m; cursor = p }))
          (advance-advance e.after.cursor 8 8 ∙ ap (advance e.after.cursor) (sym long))))
