-- ===== src/Bytes/Order.antt =====
-- Laws of the byte orders: `le_bytes` and `from_le` are inverse, and a swapped integer in memory
-- stands highest byte first.
use mosss.Common.{
  ℕ, zero, suc, ◌+◌, ◌*◌, ◌/◌, ◌%◌, ◌^◌, ◌<◌, ◌≡◌, refl, sym, ap, ◌∙◌, List, [], ◌∷◌, length,
  length-append, All, All-append, arith,
}
use mosss.Bytes.{le_bytes, from_le, bswap}
use mathlib.Core.List.{reverse, reverse-cons, reverse-reverse}
use native.Mathlib.Nat.{pow-suc}

abbrev pub IsByte : ℕ → Type 0
IsByte x = x < 256

-- The description of big-endian: the highest of the `n` bytes first.
abbrev pub be_bytes : ℕ → ℕ → List ℕ
be_bytes n x = reverse (le_bytes n x)

abbrev pub from_be : List ℕ → ℕ
from_be xs = from_le (reverse xs)

pub length-le_bytes : (n x : ℕ) → length (le_bytes n x) ≡ n
unfolding le_bytes
length-le_bytes zero x = refl
length-le_bytes (suc n) x = ap suc (length-le_bytes n (x / 256))

pub le_bytes-IsByte : (n x : ℕ) → All IsByte (le_bytes n x)
unfolding le_bytes
le_bytes-IsByte zero x = tt
le_bytes-IsByte (suc n) x = (omega arith, le_bytes-IsByte n (x / 256))

pub length-reverse {ℓ} : {A : Type ℓ} (xs : List A) → length (reverse xs) ≡ length xs
length-reverse [] = refl
length-reverse (x ∷ xs) =
    rw (reverse-cons x xs) (omega (arith, length-append (reverse xs) (x ∷ []), length-reverse xs))

pub All-reverse {ℓ κ} : {A : Type ℓ} (P : A → Type κ) (xs : List A) → All P xs → All P (reverse xs)
All-reverse P [] h = tt
All-reverse P (x ∷ xs) h =
    rw (reverse-cons x xs) (All-append P (reverse xs) (x ∷ []) (All-reverse P xs h.1) (h.0, tt))

pub le_bytes-from_le : (xs : List ℕ) → All IsByte xs → le_bytes (length xs) (from_le xs) ≡ xs
unfolding le_bytes from_le
le_bytes-from_le [] h = refl
le_bytes-from_le (x ∷ xs) h =
    let low : (x + 256 * from_le xs) % 256 ≡ x = omega arith in
    let high : (x + 256 * from_le xs) / 256 ≡ from_le xs = omega arith in
    rw (low, high, le_bytes-from_le xs h.1)

pub from_le-le_bytes : (n x : ℕ) → x < 256 ^ n → from_le (le_bytes n x) ≡ x
unfolding le_bytes from_le
from_le-le_bytes zero x h = omega arith
from_le-le_bytes (suc n) x h =
    omega (arith, from_le-le_bytes n (x / 256) (omega (arith, pow-suc 256 n)))

pub from_le-lt : (xs : List ℕ) → All IsByte xs → from_le xs < 256 ^ length xs
unfolding from_le
from_le-lt [] h = omega arith
from_le-lt (x ∷ xs) h = omega (arith, from_le-lt xs h.1, pow-suc 256 (length xs))

-- A swapped integer stored by a little-endian machine stands highest byte first.
pub le_bytes-bswap : (n x : ℕ) → le_bytes n (bswap n x) ≡ be_bytes n x
unfolding bswap
le_bytes-bswap n x =
    let len : length (be_bytes n x) ≡ n = length-reverse (le_bytes n x) ∙ length-le_bytes n x in
    ap (λ k. le_bytes k (from_le (be_bytes n x))) (sym len)
    ∙ le_bytes-from_le (be_bytes n x) (All-reverse IsByte _ (le_bytes-IsByte n x))

-- Loading bytes as a little-endian integer and swapping reads them highest first.
pub bswap-from_le : (xs : List ℕ) → All IsByte xs → bswap (length xs) (from_le xs) ≡ from_be xs
unfolding bswap
bswap-from_le xs h = ap (λ ys. from_le (reverse ys)) (le_bytes-from_le xs h)

pub from_be-be_bytes : (n x : ℕ) → x < 256 ^ n → from_be (be_bytes n x) ≡ x
from_be-be_bytes n x h = rw (reverse-reverse (le_bytes n x)) (from_le-le_bytes n x h)

pub length-be_bytes : (n x : ℕ) → length (be_bytes n x) ≡ n
length-be_bytes n x = length-reverse (le_bytes n x) ∙ length-le_bytes n x

pub be_bytes-IsByte : (n x : ℕ) → All IsByte (be_bytes n x)
be_bytes-IsByte n x = All-reverse IsByte _ (le_bytes-IsByte n x)
