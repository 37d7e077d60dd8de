-- ===== src/Connection/Freed.antt =====
-- The secondary buffer after a packet: `feed` deletes the pointer that the reads have moved.
use mosss.Common.{
  ℕ, zero, suc, ◌+◌, ◌<◌, ◌≡◌, refl, sym, ap, subst, ◌∙◌, List, [], ◌∷◌, length, arith, ok, err,
  undefined, Result, ◌>>=◌,
}
use mosss.Memory.{at, advance, delete}
use mosss.ReadBuffer.{ReadBuffer, read_char, feed}
use mosss.ReadBuffer.Stream.{Sector, read_char_primary, read_char_across, advanced, Sector-tail}
use mosss.Connection.{Connection, pos, reset}
use mosss.Connection.Second.{Second}

-- `n` calls of `read_char`.
abbrev pub read_chars : ℕ → ReadBuffer → Result ReadBuffer
read_chars zero r = ok r
read_chars (suc n) r = read_char r >>= λ a. read_chars n a.1

read_chars-primary :
    (xs : List ℕ) (r : ReadBuffer)
    → r.cursor_index ≡ 0
    → Sector r.heap r.iv0 xs
    → (r1 : ReadBuffer) × ((n : ℕ) → read_chars (length xs + n) r ≡ read_chars n r1)
      × (r1.cursor_index ≡ 0)
      × Sector r1.heap r1.iv0 []
      × (r1.iv1 ≡ r.iv1)
      × (r1.heap ≡ r.heap)
read_chars-primary [] r i s = (r, λ n. ap (λ k. read_chars k r) (omega arith), i, s, refl, refl)
read_chars-primary (x ∷ xs) r i s =
    let (r1, reads, i1, s1, second, heap) =
      read_chars-primary xs (advanced r) i (Sector-tail r.iv0 x xs s) in
    (
      r1,
      λ n.
          let next : length (x ∷ xs) + n ≡ suc (length xs + n) = omega arith in
          ap (λ k. read_chars k r) next
          ∙ ap (λ c. c >>= λ a. read_chars (length xs + n) a.1) (read_char_primary r x xs i s)
          ∙ reads n,
      i1,
      s1,
      second,
      heap,
    )

pub reset_moved :
    (c : Connection) (n b o : ℕ)
    → c.bytes_allowed ≡ pos n
    → c.rbuf.iv1.buf ≡ at b (suc o)
    → reset c ≡ err undefined
unfolding reset feed delete
reset_moved c n b o allowed moved = rw (allowed, moved) (ground arith)

-- Once a byte of the secondary buffer was read, `reset` is undefined.
pub Second-moved :
    (c : Connection) (xs zs : List ℕ) (missing : ℕ)
    → Second c xs zs missing
    → 0 < length zs
    → (r : ReadBuffer) × (read_chars (length xs + 1) c.rbuf ≡ ok r)
      × (reset (record c { rbuf = r }) ≡ err undefined)
Second-moved c xs [] missing s some_left = absurd (omega arith)
Second-moved c xs (z ∷ zs) missing s some_left =
    let (r1, reads, i, s0, second, heap) = read_chars-primary xs c.rbuf s.index s.front in
    let s1 : Sector r1.heap r1.iv1 (z ∷ zs) =
      subst (λ m. Sector m r1.iv1 (z ∷ zs)) (sym heap)
        (subst (λ v. Sector c.rbuf.heap v (z ∷ zs)) (sym second) s.sector) in
    let r : ReadBuffer = record r1 {
      cursor_index = 1;
      iv1 = record r1.iv1 { buf = advance r1.iv1.buf 1 };
    } in
    let moved : r.iv1.buf ≡ at s1.block (suc s1.offset) =
      ap (λ p. advance p 1) s1.buf ∙ ap (at s1.block) (omega arith) in
    (
      r,
      reads 1 ∙ ap (λ a. a >>= λ b. read_chars 0 b.1) (read_char_across r1 z zs i s0 s1),
      reset_moved (record c { rbuf = r }) missing s1.block s1.offset s.allowed moved,
    )
