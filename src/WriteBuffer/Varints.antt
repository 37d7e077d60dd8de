-- ===== src/WriteBuffer/Varints.antt =====
-- `write_varint` and `write_varlong`.
use mosss.Common.{
  ℕ, zero, suc, ◌+◌, ◌-◌, ◌*◌, ◌/◌, ◌%◌, ◌^◌, ◌≤◌, ◌<◌, ◌≡◌, ◌≢◌, refl, ap, subst, ◌∙◌, List, [],
  ◌∷◌, length, ok, arith, ◌>>=◌, >>=-eq-ok, bit_and, bit_or,
}
use mosss.Common.Bits.{above_seven_32, above_seven_64, with_top_bit}
use mosss.Bytes.{sar7_32, sar7_64}
use mosss.Varint.{encoding, varint, length-encoding}
use mosss.WriteBuffer.{WriteBuffer, write_byte, write_varint_loop, write_varint, write_varlong}
use mosss.WriteBuffer.Invariant.{Inv}
use mosss.WriteBuffer.Capacity.{CanWrite}
use mosss.WriteBuffer.Put.{Appended, Appended->>=, CanWrite_less, CanWrite_rest}
use mosss.WriteBuffer.Numbers.{write_byte_lem}
use native.Mathlib.Decide.{dec_lt}
use native.Mathlib.Nat.{pow-suc}

encoding_one : (k x : ℕ) → x < 128 → encoding k x ≡ x ∷ []
unfolding encoding
encoding_one zero x h = refl
encoding_one (suc k) x h = ground arith

encoding_more : (k x : ℕ) → 128 ≤ x → encoding (suc k) x ≡ (x % 128 + 128) ∷ encoding k (x / 128)
unfolding encoding
encoding_more k x h = ground arith

pub byte-Appended :
    {w : WriteBuffer} {sent sector : List ℕ} (i : Inv w sent sector) (x : ℕ)
    → x < 256
    → CanWrite i 1
    → Appended i 1 (write_byte x w) (x ∷ [])
byte-Appended {w} i x h can =
    let same : x % 256 ≡ x = omega arith in
    subst (λ y. Appended i 1 (write_byte x w) (y ∷ [])) same (write_byte_lem i x can)

sar7_small_32 : (x : ℕ) → x < 2 ^ 31 → sar7_32 x ≡ x / 128
unfolding sar7_32
sar7_small_32 x h = ground arith

sar7_small_64 : (x : ℕ) → x < 2 ^ 63 → sar7_64 x ≡ x / 128
unfolding sar7_64
sar7_small_64 x h = ground arith

-- The loop on the values below `limit`, where the mask and the shift are the arithmetic ones.
module _ (mask : ℕ) (sar7 : ℕ → ℕ) (limit : ℕ)
    (cut : (x : ℕ) → x < limit → bit_and x mask ≡ x / 128 * 128)
    (shift : (x : ℕ) → x < limit → sar7 x ≡ x / 128) where
  loop_stops :
      (fuel x : ℕ) (w : WriteBuffer)
      → x < limit
      → x < 128
      → write_varint_loop mask sar7 (suc fuel) x w ≡ write_byte x w
  unfolding write_varint_loop
  loop_stops fuel x w small h =
      let none : bit_and x mask ≡ 0 = cut x small ∙ omega arith in
      rw (none) (ap (λ y. write_byte y w) (omega arith))

  loop_goes_on :
      (fuel x : ℕ) (w : WriteBuffer)
      → x < limit
      → 128 ≤ x
      → write_varint_loop mask sar7 (suc fuel) x w
        ≡ (write_byte (x % 128 + 128) w >>= write_varint_loop mask sar7 fuel (x / 128))
  unfolding write_varint_loop
  loop_goes_on fuel x w small h = ground (arith, cut x small, shift x small, with_top_bit x)

  loop-encoding :
      (k x : ℕ) {w : WriteBuffer} {sent sector : List ℕ} (i : Inv w sent sector)
      → x < limit
      → x < 128 ^ suc k
      → CanWrite i (length (encoding k x))
      → Appended i (length (encoding k x)) (write_varint_loop mask sar7 (suc k) x w) (encoding k x)
  loop-encoding zero x {w} i small h can =
      rw (encoding_one 0 x (omega arith), loop_stops 0 x w small (omega arith))
        (byte-Appended i x (omega arith) (CanWrite_less 1 _ (length-encoding 0 x).0 can))
  loop-encoding (suc k) x {w} i small h can = elim (dec_lt x 128) [
    | yes below ↦
        rw (encoding_one (suc k) x below, loop_stops (suc k) x w small below)
          (byte-Appended i x (omega arith) (CanWrite_less 1 _ (length-encoding (suc k) x).0 can))
    | no above ↦
        let more = encoding_more k x (omega arith) in
        let first =
          byte-Appended i (x % 128 + 128) (omega arith)
            (CanWrite_less 1 _ (length-encoding (suc k) x).0 can) in
        let rest =
          loop-encoding k (x / 128) first.written.inv (omega arith)
            (omega (arith, pow-suc 128 (suc k)))
            (CanWrite_rest (length (encoding k (x / 128))) first
              (CanWrite_less _ _ (omega (arith, ap length more)) can)) in
        rw (more, loop_goes_on (suc k) x w small (omega arith))
          (subst
            (λ n.
              Appended i n
                (write_byte (x % 128 + 128) w >>= write_varint_loop mask sar7 (suc k) (x / 128))
                ((x % 128 + 128) ∷ encoding k (x / 128)))
            (omega arith) (Appended->>= (write_varint_loop mask sar7 (suc k) (x / 128)) first rest))
  ]

-- Where there is room for its encoding, or no piece yet, `write_varint` of an `int` that is not
-- negative returns, and adds the encoding to the sector.
pub write_varint-varint :
    {w : WriteBuffer} {sent sector : List ℕ} (i : Inv w sent sector) (x : ℕ)
    → x < 2 ^ 31
    → CanWrite i (length (varint x))
    → Appended i (length (varint x)) (write_varint x w) (varint x)
unfolding write_varint varint
write_varint-varint i x h can =
    loop-encoding 0xffff_ff80 sar7_32 (2 ^ 31) (λ y small. above_seven_32 y (omega arith))
      sar7_small_32 4 x i h (omega arith) can

-- Where there is room for its encoding, or no piece yet, `write_varlong` of a `long` that is not
-- negative returns, and adds the encoding, of at most nine bytes, to the sector.
pub write_varlong-encoding :
    {w : WriteBuffer} {sent sector : List ℕ} (i : Inv w sent sector) (x : ℕ)
    → x < 2 ^ 63
    → CanWrite i (length (encoding 8 x))
    → Appended i (length (encoding 8 x)) (write_varlong x w) (encoding 8 x)
unfolding write_varlong
write_varlong-encoding i x h can =
    loop-encoding 0xffff_ffff_ffff_ff80 sar7_64 (2 ^ 63) (λ y small. above_seven_64 y (omega arith))
      sar7_small_64 8 x i h (omega arith) can

-- For a negative `int` the loop of `write_varint` does not end: no number of rounds is enough,
-- whatever the room in the buffer.
pub write_varint-negative :
    (fuel x : ℕ) (w : WriteBuffer)
    → 2 ^ 31 ≤ x
    → x < 2 ^ 32
    → (after : WriteBuffer) → write_varint_loop 0xffff_ff80 sar7_32 fuel x w ≢ ok after
unfolding write_varint_loop sar7_32
write_varint-negative zero x w neg small after h = absurd cc
write_varint-negative (suc fuel) x w neg small after h =
    let shifted : sar7_32 x ≡ x / 128 + (2 ^ 32 - 2 ^ 25) = ground arith in
    let goes_on : (write_byte (bit_or (bit_and x 0x7f) 0x80) w
          >>= write_varint_loop 0xffff_ff80 sar7_32 fuel (sar7_32 x))
        ≡ ok after =
      ground (arith, above_seven_32 x small) in
    let (w1, _, again) = >>=-eq-ok (write_byte (bit_or (bit_and x 0x7f) 0x80) w) _ goes_on in
    write_varint-negative fuel (sar7_32 x) w1 (omega (arith, shifted)) (omega (arith, shifted))
      after again
