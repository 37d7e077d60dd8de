-- ===== src/Memory/Copy.antt =====
-- Allocation, the copying of cells from one block to another, and `delete[]`.
use mosss.Common.{
  ℕ, zero, suc, ◌+◌, ◌≤◌, ◌<◌, ◌≡◌, refl, sym, ap, subst, ◌∙◌, ◌≢◌, inl, ◌⊎◌, inr, List, [], ◌∷◌,
  length, ok, arith, true, Option, none, ==_iff, ==_self, ◌==◌, false, Bool-cases,
}
use mosss.Memory.{
  at, Memory, Block, update, load, set_cell, copy_cell, copy_bytes, allocate, delete,
}
use mosss.Memory.Holds.{Holds, Room, Frame, Frame-trans, Frame-refl}

pub update_self {ℓ} : {A : Type ℓ} (f : ℕ → A) (i : ℕ) (x : A) → update f i x i ≡ x
unfolding update
update_self f i x = rw (==_self i)

pub update_ne {ℓ} : {A : Type ℓ} (f : ℕ → A) (i j : ℕ) (x : A) → i ≢ j → update f i x j ≡ f j
unfolding update
update_ne f i j x h = elim (Bool-cases (i == j)) [
  | inl same ↦ absurd (h ((==_iff i j).0 same))
  | inr other ↦ rw other
]

set_any-Frame : (m : Memory) (b o : ℕ) (c : Option ℕ) → Frame b o (o + 1) m (set_cell m b o c)
unfolding set_cell
set_any-Frame m b o x = record {
  next = refl;
  size = λ c. ground arith;
  alive = λ c. ground arith;
  other = λ c n h. ground arith;
}

-- `n` cells of block `b` from `i` on were copied to block `d` from `j` on.
pub record Copied (m : Memory) (b i d j n : ℕ) : Type 0 where
  pub after : Memory
  pub runs : copy_bytes n m (at b i) (at d j) ≡ ok after
  pub frame : Frame d j (j + n) m after
  pub same : (k : ℕ) → k < n → (after.block d).cells (j + k) ≡ (m.block b).cells (i + k)

copy_cell_lem :
    (m : Memory) (b i d j : ℕ)
    → Room m b i 1
    → Room m d j 1
    → (copy_cell m (at b i) (at d j) ≡ ok (set_cell m d j ((m.block b).cells i)))
      × (((set_cell m d j ((m.block b).cells i)).block d).cells j ≡ (m.block b).cells i)
unfolding copy_cell set_cell
copy_cell_lem m b i d j r s = (ground arith, ground arith)

all_same :
    (f g : ℕ → Option ℕ) (i j n : ℕ)
    → f j ≡ g i
    → ((k : ℕ) → k < n → f (j + 1 + k) ≡ g (i + 1 + k))
    → (k : ℕ) → k < suc n
    → f (j + k) ≡ g (i + k)
all_same f g i j n first rest zero h = ap f (omega arith) ∙ first ∙ ap g (omega arith)
all_same f g i j n first rest (suc k) h =
    ap f (omega arith) ∙ rest k (omega arith) ∙ ap g (omega arith)

pub copy_bytes-Copied :
    (n : ℕ) (m : Memory) (b i d j : ℕ)
    → (b ≢ d) ⊎ (j ≤ i)
    → Room m b i n
    → Room m d j n
    → Copied m b i d j n
unfolding copy_bytes
copy_bytes-Copied zero m b i d j apart r s = record {
  after = m;
  runs = refl;
  frame = subst (λ hi. Frame d j hi m m) (omega arith) (Frame-refl d j m);
  same = λ k h. absurd (omega arith);
}
copy_bytes-Copied (suc n) m b i d j apart r s =
    let m1 = set_cell m d j ((m.block b).cells i) in
    let first = set_any-Frame m d j ((m.block b).cells i) in
    let one =
      copy_cell_lem m b i d j (record { alive = r.alive; fits = omega (arith, r.fits) })
        (record { alive = s.alive; fits = omega (arith, s.fits) }) in
    let rest =
      copy_bytes-Copied n m1 b (i + 1) d (j + 1)
        (elim apart [ inl ne ↦ inl ne | inr le ↦ inr (omega arith) ])
        (record { alive = first.alive b ∙ r.alive; fits = omega (arith, first.size b, r.fits) })
        (record { alive = first.alive d ∙ s.alive; fits = omega (arith, first.size d, s.fits) }) in
    record {
      after = rest.after;
      runs = rw one.0 rest.runs;
      frame =
          subst (λ hi. Frame d j hi m rest.after) (omega arith)
            (Frame-trans (omega arith) (omega arith) first rest.frame);
      same =
          all_same (rest.after.block d).cells (m.block b).cells i j n
            (rest.frame.other d j (inr (inl (omega arith))) ∙ one.1)
            (λ k h.
              rest.same k h
              ∙ first.other b (i + 1 + k)
                  (elim apart [ inl ne ↦ inl ne | inr le ↦ inr (inr (omega arith)) ]));
    }

load_copied :
    {m : Memory} {b i d j n : ℕ} (c : Copied m b i d j n) (k x : ℕ)
    → Room m d j n
    → k < n
    → load m (at b (i + k)) ≡ ok x
    → load c.after (at d (j + k)) ≡ ok x
unfolding load
load_copied {m} {b} {i} {d} {j} c k x r h e =
    ground (arith, c.same k h, c.frame.size d, c.frame.alive d, r.alive, r.fits)

-- What was held by the copied cells is held by the copies.
pub Copied-Holds :
    {m : Memory} {b i d j n : ℕ} (c : Copied m b i d j n) (k : ℕ) (xs : List ℕ)
    → Room m d j n
    → k + length xs ≤ n
    → Holds m (at b (i + k)) xs
    → Holds c.after (at d (j + k)) xs
Copied-Holds c k [] r h held = tt
Copied-Holds {m} {b} {i} {d} {j} c k (x ∷ xs) r h held = (
  load_copied c k x r (omega arith) held.0,
  subst (λ o. Holds c.after (at d o) xs) (omega arith)
      (Copied-Holds c (k + 1) xs r (omega arith)
        (subst (λ o. Holds m (at b o) xs) (omega arith) held.1)),
)

-- A new block: it holds nothing yet, and no other block changes.
pub allocate_lem :
    (m : Memory) (size : ℕ)
    → Room (allocate m size) m.next 0 size
      × ((c : ℕ) → c < m.next → (allocate m size).block c ≡ m.block c)
      × (((allocate m size).block m.next).size ≡ size)
unfolding allocate
allocate_lem m size =
    let here : (allocate m size).block m.next
        ≡ record { size = size; alive = true; cells = λ o. none } =
      update_self m.block m.next (record { size = size; alive = true; cells = λ o. none }) in
    let same = ap (λ (b : Block). b.size) here in
    (
      record { alive = ap (λ (b : Block). b.alive) here; fits = omega (arith, same) },
      λ c h. update_ne m.block m.next c _ (omega arith),
      same,
    )

pub record Deleted (m : Memory) (b : ℕ) : Type 0 where
  pub after : Memory
  pub runs : delete m (at b 0) ≡ ok after
  pub next : after.next ≡ m.next
  pub gone : (after.block b).alive ≡ false
  pub other : (c : ℕ) → c ≢ b → after.block c ≡ m.block c

pub delete-Deleted : (m : Memory) (b : ℕ) → (m.block b).alive ≡ true → Deleted m b
unfolding delete
delete-Deleted m b live = record {
  after = record m { block = update m.block b (record (m.block b) { alive = false }) };
  runs = rw live;
  next = refl;
  gone = ap (λ (b : Block). b.alive) (update_self m.block b (record (m.block b) { alive = false }));
  other = λ c h. update_ne m.block b c _ (λ e. h (sym e));
}

load_block :
    (m1 m2 : Memory) (c o : ℕ) → m2.block c ≡ m1.block c → load m2 (at c o) ≡ load m1 (at c o)
unfolding load
load_block m1 m2 c o e = rw e

-- Only the block of the bytes matters.
pub Holds-block :
    (m1 m2 : Memory) (c o : ℕ) (xs : List ℕ)
    → m2.block c ≡ m1.block c
    → Holds m1 (at c o) xs
    → Holds m2 (at c o) xs
Holds-block m1 m2 c o [] e h = tt
Holds-block m1 m2 c o (x ∷ xs) e h =
    (load_block m1 m2 c o e ∙ h.0, Holds-block m1 m2 c (o + 1) xs e h.1)
