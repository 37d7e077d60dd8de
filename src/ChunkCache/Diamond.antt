-- ===== src/ChunkCache/Diamond.antt =====
-- The chunks that `request_chunks` asks for.
use mosss.Common.{
  ℕ, zero, suc, ◌+◌, ◌-◌, ◌*◌, ◌/◌, ◌^◌, ◌≤◌, ◌<◌, ◌≡◌, refl, ap, ◌∙◌, arith, Bool, true, false,
  ◌&&◌, ltb, leb, ◌==◌, if◌then◌else◌, Result, ok,
}
use native.Mathlib.Decide.{dec_lt}
use mosss.Connection.{ℤ, pos, negsuc, sub_ℕ}
use mosss.ChunkCache.{
  Position, shift_4, ◌+ℤ◌, is_int, add_int, magnitude, Grid, mark, visit, columns, rows,
  request_chunks,
}

-- The distance of two numbers.
abbrev pub gap : ℕ → ℕ → ℕ
gap a b = (a - b) + (b - a)

-- `result` is a grid of the size of `g` with the cells `marked` besides those of `g`.
pub record Marks (result : Result Grid) (g : Grid) (marked : ℕ → ℕ → Bool) : Type 0 where
  pub after : Grid
  pub returns : result ≡ ok after
  pub side : after.side ≡ g.side
  pub cell : (a b : ℕ) → after.cell a b ≡ (if marked a b then true else g.cell a b)

next_int : (u d : ℕ) → sub_ℕ u d +ℤ pos 1 ≡ sub_ℕ (suc u) d
next_int u d = ground arith

shifted_back : (u d : ℕ) → sub_ℕ u d +ℤ pos d ≡ pos u
shifted_back u d = ground arith

add_back : (u d : ℕ) → u < 2 ^ 31 → add_int (sub_ℕ u d) (pos d) ≡ ok (pos u)
add_back u d h = rw (shifted_back u d) (ground arith)

shift_small : (a : ℕ) → a < 2 ^ 31 → a / 16 < 2 ^ 27
shift_small a h = omega arith

near_int :
    (x : ℤ) (u d : ℕ)
    → is_int x ≡ true
    → d < 2 ^ 30
    → u ≤ 2 * d
    → is_int (shift_4 x +ℤ sub_ℕ u d) ≡ true
near_int (pos a) u d h small near = let bound = shift_small a (ground arith) in ground arith
near_int (negsuc a) u d h small near = let bound = shift_small a (ground arith) in ground arith

add_int_ok : (a b : ℤ) → is_int (a +ℤ b) ≡ true → (y : ℤ) × (add_int a b ≡ ok y)
add_int_ok a b h = (a +ℤ b, rw h refl)

add_near :
    (x : ℤ) (u d : ℕ)
    → is_int x ≡ true
    → d < 2 ^ 30
    → u ≤ 2 * d
    → (y : ℤ) × (add_int (shift_4 x) (sub_ℕ u d) ≡ ok y)
add_near x u d h small near = add_int_ok (shift_4 x) (sub_ℕ u d) (near_int x u d h small near)

visit-Marks :
    (p : Position) (d u v : ℕ) (g : Grid)
    → is_int p.x ≡ true
    → is_int p.z ≡ true
    → d < 2 ^ 30
    → g.side ≡ 2 * d + 1
    → u ≤ 2 * d
    → v ≤ 2 * d
    → Marks (visit p d (sub_ℕ u d) (sub_ℕ v d) g) g (λ a b. (a == u) && (b == v))
unfolding visit mark
visit-Marks p d u v g hx hz small side hu hv =
    let (x, ex) = add_near p.x u d hx small hu in
    let (z, ez) = add_near p.z v d hz small hv in
    let inside : (ltb u g.side && ltb v g.side) ≡ true = ground arith in
    record {
      after = record g { cell = λ a b. if (a == u) && (b == v) then true else g.cell a b };
      returns = rw (ex, ez, add_back u d (omega arith), add_back v d (omega arith), inside) refl;
      side = refl;
      cell = λ a b. refl;
    }

columns-Marks :
    (n : ℕ) (p : Position) (d u v : ℕ) (g : Grid)
    → is_int p.x ≡ true
    → is_int p.z ≡ true
    → d < 2 ^ 30
    → g.side ≡ 2 * d + 1
    → u ≤ 2 * d
    → v + n ≤ 2 * d + 1
    → Marks
        (columns n p d (sub_ℕ u d) (sub_ℕ v d) g)
        g
        (λ a b. (a == u) && (leb v b && ltb b (v + n)))
unfolding columns
columns-Marks zero p d u v g hx hz small side hu hv = record {
  after = g;
  returns = refl;
  side = refl;
  cell = λ a b. ground arith;
}
columns-Marks (suc n) p d u v g hx hz small side hu hv =
    let m = visit-Marks p d u v g hx hz small side hu (omega arith) in
    let rest = columns-Marks n p d u (suc v) m.after hx hz small (m.side ∙ side) hu (omega arith) in
    record {
      after = rest.after;
      returns = rw (m.returns, next_int v d) rest.returns;
      side = rest.side ∙ m.side;
      cell = λ a b. rest.cell a b ∙ rw (m.cell a b) (ground arith);
    }

first_column : (dist d : ℕ) → dist ≤ d → sub_ℕ 0 dist ≡ sub_ℕ (d - dist) d
first_column dist d h = ground arith

rows_length : (u d : ℕ) → magnitude (sub_ℕ u d) ≡ gap u d
rows_length u d = ground arith

in_row :
    (d u b : ℕ)
    → u ≤ 2 * d
    → (leb (d - (d - gap u d)) b && ltb b (d - (d - gap u d) + (2 * (d - gap u d) + 1)))
      ≡ leb (gap u d + gap b d) d
in_row d u b h = ground arith

row_cell :
    (d u a b n : ℕ) (x : Bool)
    → u ≤ 2 * d
    → (if (leb (suc u) a && ltb a (suc u + n)) && leb (gap a d + gap b d) d
        then true
        else if (a == u)
            && (leb (d - (d - gap u d)) b && ltb b (d - (d - gap u d) + (2 * (d - gap u d) + 1)))
        then true
        else x)
      ≡ (if (leb u a && ltb a (u + suc n)) && leb (gap a d + gap b d) d then true else x)
row_cell d u a b n x h = elim (dec_lt a u) [
  | yes below ↦
      let far : (a == u) ≡ false = ground arith in
      let past : leb (suc u) a ≡ false = ground arith in
      let also : leb u a ≡ false = ground arith in rw (far, past, also) refl
  | no reached ↦ elim (dec_lt u a) [
    | yes above ↦
        let far : (a == u) ≡ false = ground arith in
        let past : leb (suc u) a ≡ true = ground arith in
        let also : leb u a ≡ true = ground arith in
        let same : ltb a (suc u + n) ≡ ltb a (u + suc n) = ap (ltb a) (omega arith) in
        rw (far, past, also, same) refl
    | no here ↦
        let same : a ≡ u = omega arith in
        let hit : (u == u) ≡ true = ground arith in
        let past : leb (suc u) u ≡ false = ground arith in
        let also : leb u u ≡ true = ground arith in
        let inside : ltb u (u + suc n) ≡ true = ground arith in
        rw (same, hit, past, also, inside, in_row d u b h) refl
  ]
]

rows-Marks :
    (n : ℕ) (p : Position) (d u : ℕ) (g : Grid)
    → is_int p.x ≡ true
    → is_int p.z ≡ true
    → d < 2 ^ 30
    → g.side ≡ 2 * d + 1
    → u + n ≤ 2 * d + 1
    → Marks
        (rows n p d (sub_ℕ u d) g)
        g
        (λ a b. (leb u a && ltb a (u + n)) && leb (gap a d + gap b d) d)
unfolding rows
rows-Marks zero p d u g hx hz small side hu = record {
  after = g;
  returns = refl;
  side = refl;
  cell = λ a b. ground arith;
}
rows-Marks (suc n) p d u g hx hz small side hu =
    let dist = d - gap u d in
    let m =
      columns-Marks (2 * dist + 1) p d u (d - dist) g hx hz small side (omega arith)
        (omega arith) in
    let rest = rows-Marks n p d (suc u) m.after hx hz small (m.side ∙ side) (omega arith) in
    record {
      after = rest.after;
      returns =
          rw (rows_length u d, first_column dist d (omega arith), m.returns, next_int u d)
            rest.returns;
      side = rest.side ∙ m.side;
      cell = λ a b. rest.cell a b ∙ rw (m.cell a b) (row_cell d u a b n (g.cell a b) (omega arith));
    }

-- For a position whose coordinates an `int` can hold, and a distance below 2 ^ 30, the chunks that
-- are asked for, marked in a square array with the player's chunk in the middle, are exactly those
-- that are at most the distance away, where the distances in the two directions are added; no mark
-- is outside of the array, and no sum overflows.
pub request_chunks-Marks :
    (p : Position) (d : ℕ)
    → is_int p.x ≡ true
    → is_int p.z ≡ true
    → d < 2 ^ 30
    → Marks
        (request_chunks p (pos d))
        (record { side = 2 * d + 1; cell = λ a b. false })
        (λ a b. leb (gap a d + gap b d) d)
unfolding request_chunks
request_chunks-Marks p d hx hz small =
    let empty : Grid = record { side = 2 * d + 1; cell = λ a b. false } in
    let m = rows-Marks (2 * d + 1) p d 0 empty hx hz small refl (omega arith) in
    let sized : is_int (pos (2 * d + 1)) ≡ true = ground arith in
    record {
      after = m.after;
      returns = rw sized m.returns;
      side = m.side;
      cell = λ a b. m.cell a b ∙ ground arith;
    }
