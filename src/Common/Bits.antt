-- ===== src/Common/Bits.antt =====
-- `|`, `&` and the shifts of C on unsigned bit patterns, as arithmetic.
use Prim.Native.Nat.{ℕ, zero, suc, ◌+◌, ◌-◌, ◌*◌, ◌/◌, ◌%◌, ◌^◌, ◌≤◌, ◌<◌, min, max}
use Prim.Native.Nat.{bit_and, bit_or, digits, bitwise, bit_and-bitwise, bit_or-bitwise}
use mathlib.Core.Path.{◌≡◌, refl, ap, ap₂, ◌∙◌}
use native.Mathlib.Nat.{
  pow-suc, one-le-pow, div-add-mod, mod-lt, mod-eq_of_lt, mul-add-mod_self_left,
}
use native.Mathlib.Omega.{arith}

-- The native operations stand for `bitwise`, a recursion on the binary digits with fuel.
module _ (seed : ℕ → ℕ) (join : ℕ → ℕ → ℕ) where
  digits_enough : (n m u v : ℕ) → u ≤ n → u ≤ m → digits seed join n u v ≡ digits seed join m u v
  digits_enough zero zero u v p high = refl
  digits_enough zero (suc m) zero v p high = refl
  digits_enough zero (suc m) (suc u) v p high = absurd (omega arith)
  digits_enough (suc n) zero zero v p high = refl
  digits_enough (suc n) zero (suc u) v p high = absurd (omega arith)
  digits_enough (suc n) (suc m) zero v p high = refl
  digits_enough (suc n) (suc m) (suc u) v p high =
      rw (digits_enough n m (suc u / 2) (v / 2) (omega arith) (omega arith))

  bitwise-suc :
      (u v : ℕ)
      → bitwise seed join (suc u) v
        ≡ bitwise seed join (suc u / 2) (v / 2) * 2 + join (suc u % 2) (v % 2)
  bitwise-suc u v =
      omega (arith, digits_enough u (suc u / 2) (suc u / 2) (v / 2) (omega arith) (omega arith))

pub bit_or_step : (u v : ℕ) → bit_or u v ≡ bit_or (u / 2) (v / 2) * 2 + max (u % 2) (v % 2)
bit_or_step zero v = simp bit_or-bitwise (omega arith)
bit_or_step (suc u) v = simp bit_or-bitwise (bitwise-suc (λ y. y) max u v)

pub bit_and_step : (u v : ℕ) → bit_and u v ≡ bit_and (u / 2) (v / 2) * 2 + min (u % 2) (v % 2)
bit_and_step zero v = simp bit_and-bitwise (omega arith)
bit_and_step (suc u) v = simp bit_and-bitwise (bitwise-suc (λ y. 0) min u v)

zero-bit_or : (v : ℕ) → bit_or 0 v ≡ v
zero-bit_or v = bit_or-bitwise 0 v

times_pow_suc : (high width : ℕ) → high * 2 ^ suc width ≡ 2 * (high * 2 ^ width)
times_pow_suc high width = omega (arith, ap (λ (t : ℕ). high * t) (pow-suc 2 width))

-- A value below `2 ^ k` joined with one shifted left by `k` is their sum.
pub bit_or_shifted :
    (width r high : ℕ) → r < 2 ^ width → bit_or r (high * 2 ^ width) ≡ r + high * 2 ^ width
bit_or_shifted zero r high fits =
    let e : r ≡ 0 = omega arith in rw e (omega (arith, zero-bit_or (high * 2 ^ 0)))
bit_or_shifted (suc width) r high fits = ground (
  arith,
  bit_or_step r (high * 2 ^ suc width),
  times_pow_suc high width,
  pow-suc 2 width,
  bit_or_shifted width (r / 2) high (omega (arith, pow-suc 2 width)),
)

bit_and-zero_fuel : (n u : ℕ) → u ≤ n → bit_and u 0 ≡ 0
bit_and-zero_fuel n zero h = refl
bit_and-zero_fuel zero (suc u) h = absurd (omega arith)
bit_and-zero_fuel (suc n) (suc u) h =
    omega (arith, bit_and_step (suc u) 0, bit_and-zero_fuel n (suc u / 2) (omega arith))

bit_and-zero : (u : ℕ) → bit_and u 0 ≡ 0
bit_and-zero u = bit_and-zero_fuel u u (omega arith)

half_mask : (width : ℕ) → ((2 ^ suc width - 1) / 2 ≡ 2 ^ width - 1) × ((2 ^ suc width - 1) % 2 ≡ 1)
half_mask width = omega (arith, pow-suc 2 width, one-le-pow width 2)

half_mod : (width u : ℕ) → u % 2 ^ suc width ≡ u / 2 % 2 ^ width * 2 + u % 2
half_mod width u =
    let split : u ≡ 2 ^ suc width * (u / 2 / 2 ^ width) + (u / 2 % 2 ^ width * 2 + u % 2) = omega (
      arith,
      pow-suc 2 width,
      div-add-mod (u / 2) (2 ^ width),
      ap (λ (t : ℕ). t * (u / 2 / 2 ^ width)) (pow-suc 2 width),
    ) in
    let small : u / 2 % 2 ^ width * 2 + u % 2 < 2 ^ suc width =
      omega (arith, pow-suc 2 width, mod-lt (u / 2) (one-le-pow width 2 (omega arith))) in
    ap (λ (t : ℕ). t % 2 ^ suc width) split
    ∙ mul-add-mod_self_left (2 ^ suc width) (u / 2 / 2 ^ width) _
    ∙ mod-eq_of_lt small

-- A mask of `k` ones is the remainder by `2 ^ k`.
pub bit_and_ones : (width u : ℕ) → bit_and u (2 ^ width - 1) ≡ u % 2 ^ width
bit_and_ones zero u = omega (arith, bit_and-zero u)
bit_and_ones (suc width) u =
    let (e, o) = half_mask width in
    let step = bit_and_step u (2 ^ suc width - 1) in
    let inner = bit_and_ones width (u / 2) in rw (step, e, o, inner, half_mod width u) (omega arith)

-- `c & 0x7f`, `c & 0x80` and `c & 0xf0` on one byte.
pub low_seven : (c : ℕ) → bit_and c 0x7f ≡ c % 128
low_seven c = bit_and_ones 7 c

byte_mask : (c : ℕ) → bit_and c 0x80 ≡ bit_and (c / 2 / 2 / 2 / 2 / 2 / 2 / 2) 1 * 128
byte_mask c = omega (
  arith,
  bit_and_step c 0x80,
  bit_and_step (c / 2) 0x40,
  bit_and_step (c / 2 / 2) 0x20,
  bit_and_step (c / 2 / 2 / 2) 0x10,
  bit_and_step (c / 2 / 2 / 2 / 2) 0x08,
  bit_and_step (c / 2 / 2 / 2 / 2 / 2) 0x04,
  bit_and_step (c / 2 / 2 / 2 / 2 / 2 / 2) 0x02,
)

pub top_bit : (c : ℕ) → c < 256 → bit_and c 0x80 ≡ c / 128 * 128
top_bit c h = omega (arith, byte_mask c, bit_and_ones 1 (c / 2 / 2 / 2 / 2 / 2 / 2 / 2))

pub high_half : (c : ℕ) → c < 256 → bit_and c 0xf0 ≡ c / 16 * 16
high_half c h = omega (
  arith,
  bit_and_step c 0xf0,
  bit_and_step (c / 2) 0x78,
  bit_and_step (c / 2 / 2) 0x3c,
  bit_and_step (c / 2 / 2 / 2) 0x1e,
  bit_and_ones 4 (c / 2 / 2 / 2 / 2),
)

-- `x & ~0x7f` where `m` is the mask shifted right by seven.
above_seven : (x m : ℕ) → bit_and x (m * 128) ≡ bit_and (x / 128) m * 128
above_seven x m = omega (
  arith,
  bit_and_step x (m * 128),
  bit_and_step (x / 2) (m * 128 / 2),
  bit_and_step (x / 2 / 2) (m * 128 / 2 / 2),
  bit_and_step (x / 2 / 2 / 2) (m * 128 / 2 / 2 / 2),
  bit_and_step (x / 2 / 2 / 2 / 2) (m * 128 / 2 / 2 / 2 / 2),
  bit_and_step (x / 2 / 2 / 2 / 2 / 2) (m * 128 / 2 / 2 / 2 / 2 / 2),
  bit_and_step (x / 2 / 2 / 2 / 2 / 2 / 2) (m * 128 / 2 / 2 / 2 / 2 / 2 / 2),
  halved,
)
  where
    halved :
        bit_and (x / 2 / 2 / 2 / 2 / 2 / 2 / 2) (m * 128 / 2 / 2 / 2 / 2 / 2 / 2 / 2)
        ≡ bit_and (x / 128) m
    halved = ap₂ bit_and (omega arith) (omega arith)

-- `x & ~0x7f` on an `int32_t` and on an `int64_t`.
pub above_seven_32 : (x : ℕ) → x < 2 ^ 32 → bit_and x 0xffff_ff80 ≡ x / 128 * 128
above_seven_32 x h = omega (arith, above_seven x 0x1ff_ffff, bit_and_ones 25 (x / 128))

pub above_seven_64 : (x : ℕ) → x < 2 ^ 64 → bit_and x 0xffff_ffff_ffff_ff80 ≡ x / 128 * 128
above_seven_64 x h = omega (arith, above_seven x 0x1ff_ffff_ffff_ffff, bit_and_ones 57 (x / 128))

-- `(x & 0x7f) | 0x80`.
pub with_top_bit : (x : ℕ) → bit_or (bit_and x 0x7f) 0x80 ≡ x % 128 + 128
with_top_bit x = rw (low_seven x) (bit_or_shifted 7 (x % 128) 1 (omega arith))
