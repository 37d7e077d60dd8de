-- ===== src/Varint.antt =====
-- The variable-length integers of the protocol, described without the code: groups of seven
-- bits, lowest first, each byte but the last with its top bit set, and at most five bytes.
use mosss.Common.{
  ℕ, zero, suc, ◌+◌, ◌-◌, ◌*◌, ◌/◌, ◌%◌, ◌^◌, ◌≤◌, ◌<◌, ◌≡◌, ap, ◌∙◌, List, [], ◌∷◌, ◌++◌, ltb,
  if◌then◌else◌, le→ltb, >>=-eq-ok, Result, ok, err, malformed_varint, undefined, ◌>>=◌, All,
  length, length-append, arith,
}
use mosss.Bytes.Order.{IsByte}
use native.Mathlib.Decide.{dec_lt}
use native.Mathlib.Nat.{pow-suc}

-- The encoding of a number below 128 ^ (k + 1).
unfoldable pub encoding : ℕ → ℕ → List ℕ
encoding zero x = x ∷ []
encoding (suc k) x =
    let rest = encoding k (x / 128) in if ltb x 128 then x ∷ [] else (x % 128 + 128) ∷ rest

-- The encoding of an `int32_t` pattern.
unfoldable pub varint : ℕ → List ℕ
unfolding encoding
varint = encoding 4

-- At most `k` more bytes may follow the next one. A last byte holds four bits if it is the fifth.
-- On input that ends inside a number the result is `undefined`.
unfoldable pub decode : ℕ → List ℕ → Result (ℕ × List ℕ)
decode k [] = err undefined
decode zero (b ∷ bs) = if ltb b 16 then ok (b, bs) else err malformed_varint
decode (suc k) (b ∷ bs) =
    let rest = decode k bs >>= λ p. ok (b % 128 + 128 * p.0, p.1) in
    if ltb b 128 then ok (b, bs) else rest

pub encoding-IsByte : (k x : ℕ) → x < 128 ^ suc k → All IsByte (encoding k x)
unfolding encoding
encoding-IsByte zero x h = omega arith
encoding-IsByte (suc k) x h =
    ground (arith, encoding-IsByte k (x / 128) (omega (arith, pow-suc 128 (suc k))))

pub length-encoding : (k x : ℕ) → (1 ≤ length (encoding k x)) × (length (encoding k x) ≤ k + 1)
unfolding encoding
length-encoding zero x = omega arith
length-encoding (suc k) x = ground (arith, length-encoding k (x / 128))

-- Reading what was written gives the number and what follows it.
pub decode-encoding :
    (k x : ℕ) (rest : List ℕ) → x < 16 * 128 ^ k → decode k (encoding k x ++ rest) ≡ ok (x, rest)
unfolding encoding decode
decode-encoding zero x rest h = ground arith
decode-encoding (suc k) x rest h =
    ground (arith, decode-encoding k (x / 128) rest (omega (arith, pow-suc 128 k)))

-- The number that `b` and the groups after it make.
abbrev join : ℕ → ℕ × List ℕ → Result (ℕ × List ℕ)
join b p = ok (b % 128 + 128 * p.0, p.1)

join-ok :
    (b v : ℕ) (p : ℕ × List ℕ) (rest : List ℕ)
    → join b p ≡ ok (v, rest)
    → (p.1 ≡ rest) × (v ≡ b % 128 + 128 * p.0)
join-ok b v p rest e = ground arith

pub decode_more :
    (k b : ℕ) (bs rest : List ℕ) (v : ℕ)
    → 128 ≤ b
    → decode (suc k) (b ∷ bs) ≡ ok (v, rest)
    → (w : ℕ) × (decode k bs ≡ ok (w, rest)) × (v ≡ b % 128 + 128 * w)
unfolding decode
decode_more k b bs rest v h e =
    let (p, runs, joined) = >>=-eq-ok (decode k bs) (join b) (rw (le→ltb b 128 h) at e) in
    let (same, value) = join-ok b v p rest joined in (p.0, runs ∙ ap (λ r. ok (p.0, r)) same, value)

pub decode_more_malformed :
    (k b : ℕ) (bs : List ℕ)
    → 128 ≤ b
    → decode (suc k) (b ∷ bs) ≡ err malformed_varint
    → decode k bs ≡ err malformed_varint
unfolding decode
decode_more_malformed k b bs h e = ground arith

pub decode_one :
    (k b : ℕ) (bs rest : List ℕ) (v : ℕ)
    → b < 128
    → decode (suc k) (b ∷ bs) ≡ ok (v, rest)
    → (b ≡ v) × (bs ≡ rest)
unfolding decode
decode_one k b bs rest v h e = ground arith

pub decode_fifth :
    (b : ℕ) (bs rest : List ℕ) (v : ℕ)
    → decode 0 (b ∷ bs) ≡ ok (v, rest)
    → (b < 16) × (b ≡ v) × (bs ≡ rest)
unfolding decode
decode_fifth b bs rest v e = ground arith

pub decode_fifth_malformed :
    (b : ℕ) (bs : List ℕ) → decode 0 (b ∷ bs) ≡ err malformed_varint → 16 ≤ b
unfolding decode
decode_fifth_malformed b bs e = ground arith

pub decode_malformed_top :
    (k b : ℕ) (bs : List ℕ) → decode (suc k) (b ∷ bs) ≡ err malformed_varint → 128 ≤ b
unfolding decode
decode_malformed_top k b bs e = ground arith

pub varint-IsByte : (x : ℕ) → x < 2 ^ 32 → All IsByte (varint x)
unfolding varint
varint-IsByte x h = encoding-IsByte 4 x (omega arith)

pub length-varint : (x : ℕ) → (1 ≤ length (varint x)) × (length (varint x) ≤ 5)
unfolding varint
length-varint x = length-encoding 4 x

pub decode-varint :
    (x : ℕ) (rest : List ℕ) → x < 2 ^ 32 → decode 4 (varint x ++ rest) ≡ ok (x, rest)
unfolding varint
decode-varint x rest h = decode-encoding 4 x rest (omega arith)

-- The number that the low seven bits of some bytes make, lowest group first.
abbrev pub groups : List ℕ → ℕ
groups [] = 0
groups (b ∷ bs) = b % 128 + 128 * groups bs

abbrev pub Continuing : ℕ → Type 0
Continuing b = 128 ≤ b

-- A front that stops short of the last byte of the number.
pub record Split (k : ℕ) (front back rest : List ℕ) (v : ℕ) : Type 0 where
  pub continuing : All Continuing front
  pub length_le : length front ≤ k
  pub high : ℕ
  pub decodes : decode (k - length front) back ≡ ok (high, rest)
  pub value : v ≡ groups front + 128 ^ length front * high

pub decode-Split :
    (k : ℕ) (front back rest : List ℕ) (v : ℕ)
    → decode k (front ++ back) ≡ ok (v, rest)
    → length rest < length back
    → Split k front back rest v
decode-Split k [] back rest v d h = record {
  continuing = tt;
  length_le = omega arith;
  high = v;
  decodes = ap (λ n. decode n back) (omega arith) ∙ d;
  value = omega arith;
}
decode-Split zero (b ∷ front) back rest v d h =
    absurd (
      omega
        (arith, ap length (decode_fifth b (front ++ back) rest v d).2, length-append front back))
decode-Split (suc k) (b ∷ front) back rest v d h = elim (dec_lt b 128) [
  | yes small ↦ absurd (
      omega (
        arith,
        ap length (decode_one k b (front ++ back) rest v small d).1,
        length-append front back,
      ))
  | no large ↦
      let (w, inner, joined) = decode_more k b (front ++ back) rest v (omega arith) d in
      let s = decode-Split k front back rest w inner h in
      record {
        continuing = (omega arith, s.continuing);
        length_le = omega (arith, s.length_le);
        high = s.high;
        decodes = ap (λ n. decode n back) (omega arith) ∙ s.decodes;
        value =
            omega (arith, joined, s.value, ap (λ (t : ℕ). t * s.high) (pow-suc 128 (length front)));
      }
]
