-- ===== src/Memory.antt =====
-- The memory that the buffers of headers/network work in: blocks of bytes, C pointers into them,
-- `new char[]` and `delete[]`.
pub mod Holds
pub mod Copy
pub mod Place
use mosss.Common.{
  ℕ, zero, suc, ◌+◌, ◌-◌, ◌%◌, ◌^◌, Bool, true, false, ◌&&◌, Option, none, some, List, [], ◌∷◌, ltb,
  ◌==◌, if◌then◌else◌, Result, ok, err, undefined, ◌>>=◌, length, get_elem?,
}

-- A null pointer, or a block and an offset in it.
pub data Pointer : Type 0 where
  null : Pointer
  at : ℕ → ℕ → Pointer

-- A cell with no value holds an indeterminate byte.
pub record Block : Type 0 where
  pub size : ℕ
  pub alive : Bool
  pub cells : ℕ → Option ℕ

-- `next` is the first block that was not allocated yet.
pub record Memory : Type 0 where
  pub next : ℕ
  pub block : ℕ → Block

unfoldable pub update {ℓ} : {A : Type ℓ} → (ℕ → A) → ℕ → A → ℕ → A
update f i x j = if i == j then x else f j

abbrev pub advance : Pointer → ℕ → Pointer
advance null n = null
advance (at b o) n = at b (o + n)

-- `p - n`; before the start of the block there is no pointer.
unfoldable pub retreat : Pointer → ℕ → Result Pointer
retreat null n = err undefined
retreat (at b o) n = if ltb o n then err undefined else ok (at b (o - n))

-- `(size_t) (p - q)`.
unfoldable pub distance : Pointer → Pointer → Result ℕ
distance null null = ok 0
distance null (at b o) = err undefined
distance (at b o) null = err undefined
distance (at b o) (at c n) = if b == c then ok ((o + 2 ^ 64 - n) % 2 ^ 64) else err undefined

unfoldable pub in_range : Memory → ℕ → ℕ → Bool
in_range m b o = (m.block b).alive && ltb o (m.block b).size

abbrev pub determinate : Option ℕ → Result ℕ
determinate none = err undefined
determinate (some x) = ok x

-- `*p` as a value.
unfoldable pub load : Memory → Pointer → Result ℕ
unfolding in_range
load m null = err undefined
load m (at b o) = if in_range m b o then determinate ((m.block b).cells o) else err undefined

unfoldable pub set_cell : Memory → ℕ → ℕ → Option ℕ → Memory
unfolding update
set_cell m b o c = record m {
  block = update m.block b (record (m.block b) { cells = update (m.block b).cells o c });
}

-- `*p = x`.
unfoldable pub store : Memory → Pointer → ℕ → Result Memory
unfolding in_range set_cell
store m null x = err undefined
store m (at b o) x = if in_range m b o then ok (set_cell m b o (some x)) else err undefined

-- `*q = *p` on `char`s, which may copy an indeterminate byte.
unfoldable pub copy_cell : Memory → Pointer → Pointer → Result Memory
unfolding in_range set_cell
copy_cell m (at b o) (at c n) =
    if in_range m b o && in_range m c n
    then ok (set_cell m c n ((m.block b).cells o))
    else err undefined
copy_cell m null q = err undefined
copy_cell m (at b o) null = err undefined

unfoldable pub store_bytes : Memory → Pointer → List ℕ → Result Memory
store_bytes m p [] = ok m
store_bytes m p (x ∷ xs) = do m1 ← store m p x; store_bytes m1 (advance p 1) xs

unfoldable pub load_bytes : Memory → Pointer → ℕ → Result (List ℕ)
load_bytes m p zero = ok []
load_bytes m p (suc n) = do x ← load m p; xs ← load_bytes m (advance p 1) n; ok (x ∷ xs)

-- `for (i = 0; i < n; ++i) q[i] = p[i];`
unfoldable pub copy_bytes : ℕ → Memory → Pointer → Pointer → Result Memory
copy_bytes zero m p q = ok m
copy_bytes (suc n) m p q = do m1 ← copy_cell m p q; copy_bytes n m1 (advance p 1) (advance q 1)

-- `new char[size]`.
unfoldable pub allocate : Memory → ℕ → Memory
unfolding update
allocate m size = record {
  next = suc m.next;
  block = update m.block m.next (record { size = size; alive = true; cells = λ o. none });
}

-- `delete[] p`: `p` is null or what `new[]` returned, once.
unfoldable pub delete : Memory → Pointer → Result Memory
unfolding update
delete m null = ok m
delete m (at b o) =
    if (m.block b).alive && o == 0
    then ok (record m { block = update m.block b (record (m.block b) { alive = false }) })
    else err undefined

-- The characters of a `std::string` that the program makes, in a block of their own.
unfoldable pub place : Memory → List ℕ → Memory
unfolding update
place m xs = record {
  next = suc m.next;
  block =
      update m.block m.next
        (record { size = length xs; alive = true; cells = λ o. get_elem? xs o });
}
