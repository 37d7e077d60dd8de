-- ===== src/TcpServer/Connections.antt =====
-- The list of connections and the connections that exist.
use mosss.Common.{
  ℕ, ◌+◌, ◌<◌, ◌≡◌, refl, List, [], ◌∷◌, ◌++◌, Bool, true, false, ◌==◌, if◌then◌else◌, ok, err,
  undefined, arith, Bool-cases, inl, inr,
}
use mosss.Memory.{update}
use mosss.TcpServer.{TcpServer, erase, delete}

-- How often `conn` is in the list.
unfoldable pub count : ℕ → List ℕ → ℕ
count conn [] = 0
count conn (c ∷ rest) = (if c == conn then 1 else 0) + count conn rest

abbrev pub bit : Bool → ℕ
bit b = if b then 1 else 0

-- The list has each connection that exists once, and no other.
pub record Tracked (t : TcpServer) : Type 0 where
  pub exact : (conn : ℕ) → count conn t.connections ≡ bit (t.allocated conn)

pub erase_found :
    (conn : ℕ) (xs : List ℕ)
    → 0 < count conn xs
    → (ys : List ℕ) × (erase conn xs ≡ ok ys)
      × ((c : ℕ) → count c ys + bit (c == conn) ≡ count c xs)
unfolding erase count
erase_found conn [] h = absurd (omega arith)
erase_found conn (x ∷ xs) h = elim (Bool-cases (x == conn)) [
  | inl here ↦ (xs, rw here refl, λ c. ground (arith, here))
  | inr other ↦
      let (ys, e, counts) = erase_found conn xs (ground (arith, h, other)) in
      (x ∷ ys, rw (other, e) refl, λ c. ground (arith, counts c))
]

pub erase_missing : (conn : ℕ) (xs : List ℕ) → count conn xs ≡ 0 → erase conn xs ≡ err undefined
unfolding erase count
erase_missing conn [] h = refl
erase_missing conn (x ∷ xs) h = elim (Bool-cases (x == conn)) [
  | inl here ↦ absurd (ground (arith, h, here))
  | inr other ↦ rw (other, erase_missing conn xs (ground (arith, h, other))) refl
]

pub count-append : (c : ℕ) (xs ys : List ℕ) → count c (xs ++ ys) ≡ count c xs + count c ys
unfolding count
count-append c [] ys = omega arith
count-append c (x ∷ xs) ys = omega (arith, count-append c xs ys)

pub allocated_delete :
    (conn : ℕ) (allocated : ℕ → Bool)
    → allocated conn ≡ true
    → delete conn allocated ≡ ok (update allocated conn false)
unfolding delete
allocated_delete conn allocated h = rw h refl

-- The objects after one of them was deleted, or made.
pub bit-update :
    (allocated : ℕ → Bool) (conn : ℕ) (b : Bool) (c : ℕ)
    → bit (update allocated conn b c) ≡ (if c == conn then bit b else bit (allocated c))
unfolding update
bit-update allocated conn b c = ground arith
