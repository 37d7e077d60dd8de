-- ===== src/Memory/Place.antt =====
-- The characters of a string that the program makes, and what the other blocks keep.
use mosss.Common.{
  ℕ, suc, ◌+◌, ◌≡◌, sym, ap, ◌∙◌, ◌≢◌, List, [], ◌∷◌, length, get_elem?, arith, true, some,
}
use mosss.Memory.{at, Memory, Block, load, in_range, place}
use mosss.Memory.Holds.{Holds}
use mosss.Memory.Copy.{update_self, update_ne}

placed :
    (m : Memory) (b o : ℕ) (xs : List ℕ)
    → (m.block b).alive ≡ true
    → (m.block b).size ≡ o + length xs
    → ((k : ℕ) → (m.block b).cells (o + k) ≡ get_elem? xs k)
    → Holds m (at b o) xs
unfolding load in_range
placed m b o [] alive size cells = tt
placed m b o (x ∷ xs) alive size cells =
    let here : (m.block b).cells o ≡ some x = ap (m.block b).cells (omega arith) ∙ cells 0 in
    (
      ground (arith, here),
      placed m b (o + 1) xs alive (size ∙ omega arith)
          (λ k. ap (m.block b).cells (omega arith) ∙ cells (suc k)),
    )

-- The new string's block holds its characters, and the other blocks are as they were.
pub place_lem :
    (m : Memory) (xs : List ℕ)
    → Holds (place m xs) (at m.next 0) xs
      × ((c : ℕ) → c ≢ m.next → (place m xs).block c ≡ m.block c)
unfolding place
place_lem m xs =
    let here =
      update_self m.block m.next
        (record { size = length xs; alive = true; cells = λ o. get_elem? xs o }) in
    (
      placed (place m xs) m.next 0 xs (ap (λ (b : Block). b.alive) here)
          (ap (λ (b : Block). b.size) here ∙ omega arith)
          (λ k. ap (λ (b : Block). b.cells (0 + k)) here ∙ ap (λ n. get_elem? xs n) (omega arith)),
      λ c h. update_ne m.block m.next c _ (λ e. h (sym e)),
    )
