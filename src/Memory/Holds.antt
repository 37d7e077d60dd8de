-- ===== src/Memory/Holds.antt =====
-- What a stretch of memory holds, and what stores leave of it.
use mosss.Common.{
  ℕ, suc, ◌+◌, ◌≤◌, ◌<◌, ◌≡◌, refl, ap, subst, ◌∙◌, ◌≢◌, ◌⊎◌, inl, inr, List, [], ◌∷◌, ◌++◌, length,
  ok, arith, true, some,
}
use mosss.Memory.{
  Pointer, null, at, Memory, advance, load, set_cell, store, store_bytes, load_bytes,
}

-- The bytes from `p` on are `bs`.
abbrev pub Holds : Memory → Pointer → List ℕ → Type 0
Holds m p [] = Unit {0}
Holds m p (x ∷ xs) = (load m p ≡ ok x) × Holds m (advance p 1) xs

pub advance-zero : (p : Pointer) → advance p 0 ≡ p
advance-zero null = refl
advance-zero (at b o) = ap (at b) (omega arith)

pub advance-advance : (p : Pointer) (i j : ℕ) → advance (advance p i) j ≡ advance p (i + j)
advance-advance null i j = refl
advance-advance (at b o) i j = ap (at b) (omega arith)

pub advance-suc : (p : Pointer) (n : ℕ) → advance (advance p 1) n ≡ advance p (suc n)
advance-suc null n = refl
advance-suc (at b o) n = ap (at b) (omega arith)

pub Holds-append :
    (m : Memory) (p : Pointer) (xs ys : List ℕ)
    → Holds m p xs
    → Holds m (advance p (length xs)) ys
    → Holds m p (xs ++ ys)
Holds-append m p [] ys hx hy = rw (advance-zero p) at hy
Holds-append m p (x ∷ xs) ys hx hy =
    (hx.0, Holds-append m (advance p 1) xs ys hx.1 (rw (advance-suc p (length xs)) hy))

pub append-Holds :
    (m : Memory) (p : Pointer) (xs ys : List ℕ)
    → Holds m p (xs ++ ys)
    → Holds m p xs × Holds m (advance p (length xs)) ys
append-Holds m p [] ys h = (tt, rw (advance-zero p) h)
append-Holds m p (x ∷ xs) ys h =
    let rest = append-Holds m (advance p 1) xs ys h.1 in
    ((h.0, rest.0), rw (advance-suc p (length xs)) at rest.1)

pub load_bytes-Holds :
    (m : Memory) (p : Pointer) (xs : List ℕ) → Holds m p xs → load_bytes m p (length xs) ≡ ok xs
unfolding load_bytes
load_bytes-Holds m p [] h = refl
load_bytes-Holds m p (x ∷ xs) h = rw (h.0, load_bytes-Holds m (advance p 1) xs h.1)

-- The cells `o`, …, `o + n - 1` of block `b` exist.
pub record Room (m : Memory) (b o n : ℕ) : Type 0 where
  pub alive : (m.block b).alive ≡ true
  pub fits : o + n ≤ (m.block b).size

-- `m2` differs from `m1` at most in the cells of `b` from `lo` up to `hi`.
pub record Frame (b lo hi : ℕ) (m1 m2 : Memory) : Type 0 where
  pub next : m2.next ≡ m1.next
  pub size : (c : ℕ) → (m2.block c).size ≡ (m1.block c).size
  pub alive : (c : ℕ) → (m2.block c).alive ≡ (m1.block c).alive
  pub other :
      (c o : ℕ) → (c ≢ b) ⊎ ((o < lo) ⊎ (hi ≤ o)) → (m2.block c).cells o ≡ (m1.block c).cells o

pub set_cell-Frame : (m : Memory) (b o x : ℕ) → Frame b o (o + 1) m (set_cell m b o (some x))
unfolding set_cell
set_cell-Frame m b o x = record {
  next = refl;
  size = λ c. ground arith;
  alive = λ c. ground arith;
  other = λ c n h. ground arith;
}

pub Frame-refl : (b lo : ℕ) (m : Memory) → Frame b lo lo m m
Frame-refl b lo m = record {
  next = refl;
  size = λ c. refl;
  alive = λ c. refl;
  other = λ c o h. refl;
}

pub Frame-trans :
    {b lo mid hi : ℕ} {m1 m2 m3 : Memory}
    → lo ≤ mid
    → mid ≤ hi
    → Frame b lo mid m1 m2
    → Frame b mid hi m2 m3
    → Frame b lo hi m1 m3
Frame-trans p q f g = record {
  next = g.next ∙ f.next;
  size = λ c. g.size c ∙ f.size c;
  alive = λ c. g.alive c ∙ f.alive c;
  other = λ c o h. ground (arith, f.other c o, g.other c o);
}

pub load-Frame :
    {b lo hi : ℕ} {m1 m2 : Memory} (c o : ℕ) {x : ℕ}
    → Frame b lo hi m1 m2
    → (c ≢ b) ⊎ ((o < lo) ⊎ (hi ≤ o))
    → load m1 (at c o) ≡ ok x
    → load m2 (at c o) ≡ ok x
unfolding load
load-Frame c o f away h = ground (arith, f.size c, f.alive c, f.other c o away)

-- Bytes outside of the frame stay.
pub Holds-Frame :
    {b lo hi : ℕ} {m1 m2 : Memory} (c o : ℕ) (xs : List ℕ)
    → Frame b lo hi m1 m2
    → (c ≢ b) ⊎ ((o + length xs ≤ lo) ⊎ (hi ≤ o))
    → Holds m1 (at c o) xs
    → Holds m2 (at c o) xs
Holds-Frame c o [] f away h = tt
Holds-Frame {b} {lo} {hi} c o (x ∷ xs) f away h =
    (load-Frame c o f (head away) h.0, Holds-Frame c (o + 1) xs f (rest away) h.1)
  where
    head : (c ≢ b) ⊎ ((o + length (x ∷ xs) ≤ lo) ⊎ (hi ≤ o)) → (c ≢ b) ⊎ ((o < lo) ⊎ (hi ≤ o))
    head (inl ne) = inl ne
    head (inr (inl p)) = inr (inl (omega arith))
    head (inr (inr p)) = inr (inr p)

    rest :
        (c ≢ b) ⊎ ((o + length (x ∷ xs) ≤ lo) ⊎ (hi ≤ o))
        → (c ≢ b) ⊎ ((o + 1 + length xs ≤ lo) ⊎ (hi ≤ o + 1))
    rest (inl ne) = inl ne
    rest (inr (inl p)) = inr (inl (omega arith))
    rest (inr (inr p)) = inr (inr (omega arith))

pub store_lem :
    (m : Memory) (b o x : ℕ)
    → Room m b o 1
    → (store m (at b o) x ≡ ok (set_cell m b o (some x)))
      × (load (set_cell m b o (some x)) (at b o) ≡ ok x)
unfolding store load set_cell
store_lem m b o x r = (ground arith, ground arith)

-- A store of a stretch of bytes that fits its block.
pub record Stored (m : Memory) (b o : ℕ) (xs : List ℕ) : Type 0 where
  pub after : Memory
  pub runs : store_bytes m (at b o) xs ≡ ok after
  pub frame : Frame b o (o + length xs) m after
  pub holds : Holds after (at b o) xs

pub store_bytes-Stored :
    (m : Memory) (b o : ℕ) (xs : List ℕ) → Room m b o (length xs) → Stored m b o xs
unfolding store_bytes
store_bytes-Stored m b o [] r = record {
  after = m;
  runs = refl;
  frame = subst (λ n. Frame b o n m m) (omega arith) (Frame-refl b o m);
  holds = tt;
}
store_bytes-Stored m b o (x ∷ xs) r =
    let m1 = set_cell m b o (some x) in
    let first = set_cell-Frame m b o x in
    let one = store_lem m b o x (record { alive = r.alive; fits = omega (arith, r.fits) }) in
    let room : Room m1 b (o + 1) (length xs) = record {
      alive = first.alive b ∙ r.alive;
      fits = omega (arith, first.size b, r.fits);
    } in
    let rest = store_bytes-Stored m1 b (o + 1) xs room in
    record {
      after = rest.after;
      runs = rw one.0 rest.runs;
      frame =
          subst (λ n. Frame b o n m rest.after) (omega arith)
            (Frame-trans (omega arith) (omega arith) first rest.frame);
      holds = (load-Frame b o rest.frame (inr (inl (omega arith))) one.1, rest.holds);
    }
