-- ===== src/WriteBuffer/Strings.antt =====
-- `write_bytes`, `write_string` and `flush_buffer`.
use mosss.Common.{
  ℕ, ◌+◌, ◌%◌, ◌^◌, ◌≤◌, ◌<◌, ◌≡◌, refl, sym, ap, subst, ◌∙◌, List, [], ◌∷◌, ◌++◌, length, ok,
  arith, true, false, ltb, if◌then◌else◌, ◌>>=◌, ◌==◌, append-nil, Bool,
}
use mosss.Memory.{at}
use mosss.Memory.Holds.{Holds}
use mosss.Varint.{varint}
use mosss.WriteBuffer.{WriteBuffer, write_iov, write_bytes, write_string, flush_buffer, sector_size}
use mosss.WriteBuffer.Invariant.{Inv, Foreign, Written, Written->>=}
use mosss.WriteBuffer.Capacity.{Layout-distances, CanWrite}
use mosss.WriteBuffer.Pieces.{Sent, Sent->>=, Appended-Sent}
use mosss.WriteBuffer.Varints.{write_varint-varint}
use native.Mathlib.Decide.{dec_le}
use mosss.WriteBuffer.Iovecs.{prepare, close_sector, add-Foreign}

-- `write_bytes` after the resize, with and without bytes in the sector.
body_full :
    {w : WriteBuffer} {sent : List ℕ} {x : ℕ} {ys : List ℕ} (i : Inv w sent (x ∷ ys)) (c o : ℕ)
    (xs : List ℕ)
    → w.iov_cursor + 1 < w.iov_size
    → Foreign i c
    → Holds w.heap (at c o) xs
    → Written i 0
        (write_iov w.sector_start (length (x ∷ ys)) w >>= write_iov (at c o) (length xs))
        (sent ++ (x ∷ ys) ++ xs)
        []
body_full i c o xs below f held =
    let first = close_sector i (omega arith) in
    let a = first.written in
    let second =
      add-Foreign a.inv c o xs (omega (arith, first.count, first.slots))
        (λ none_yet. absurd (omega (arith, first.count))) (a.foreign c f) (a.kept c o xs f held) in
    Written->>= (write_iov (at c o) (length xs)) a second.written

body_empty :
    {w : WriteBuffer} {sent : List ℕ} (i : Inv w sent []) (c o : ℕ) (xs : List ℕ)
    → w.iov_cursor + 1 < w.iov_size
    → Foreign i c
    → Holds w.heap (at c o) xs
    → Written i 0
        ((if w.iov_cursor == 0 then write_iov w.sector_start 0 w else ok w)
          >>= write_iov (at c o) (length xs))
        (sent ++ xs)
        []
body_empty {w} {sent} i c o xs below f held = elim (dec_le w.iov_cursor 0) [
  | yes none_yet ↦
      let first = close_sector i (omega arith) in
      let a = first.written in
      let second =
        add-Foreign a.inv c o xs (omega (arith, first.count, first.slots))
          (λ z. absurd (omega (arith, first.count))) (a.foreign c f) (a.kept c o xs f held) in
      let test : (if w.iov_cursor == 0 then write_iov w.sector_start 0 w else ok w)
          ≡ write_iov w.sector_start 0 w =
        ground arith in
      subst (λ r. Written i 0 (r >>= write_iov (at c o) (length xs)) (sent ++ xs) []) (sym test)
        (subst
          (λ bs.
            Written i 0 (write_iov w.sector_start 0 w >>= write_iov (at c o) (length xs)) (bs ++ xs)
              [])
          (append-nil sent) (Written->>= (write_iov (at c o) (length xs)) a second.written))
  | no some_pieces ↦
      let test : (if w.iov_cursor == 0 then write_iov w.sector_start 0 w else ok w) ≡ ok w =
        ground arith in
      subst (λ r. Written i 0 (r >>= write_iov (at c o) (length xs)) (sent ++ xs) []) (sym test)
        (add-Foreign i c o xs (omega arith) (λ z. absurd (omega arith)) f held).written
]

nonzero : (x : ℕ) (xs : List ℕ) → (length (x ∷ xs) == 0) ≡ false
nonzero x xs = ground arith

positive : (x : ℕ) (xs : List ℕ) → ltb 0 (length (x ∷ xs)) ≡ true
positive x xs = ground arith

-- Where the bytes are in the caller's memory, `write_bytes` returns, takes no room, and lists the
-- bytes after what was written before.
pub write_bytes-Sent :
    {w : WriteBuffer} {sent sector : List ℕ} (i : Inv w sent sector) (c o : ℕ) (xs : List ℕ)
    → Foreign i c
    → Holds w.heap (at c o) xs
    → Sent i 0 (write_bytes (at c o) (length xs) w) xs
unfolding write_bytes
write_bytes-Sent {w} {sent} {sector} i c o [] f held = record {
  sent_after = sent;
  sector_after = sector;
  content = sym (append-nil (sent ++ sector));
  written = record {
    after = w;
    returns = refl;
    inv = i;
    foreign = λ c f. f;
    kept = λ c o ys f h. h;
    room_left = omega arith;
    growth = omega arith;
  };
}
write_bytes-Sent {w} {sent} {sector = []} i c o (x ∷ xs) f held =
    let (_, _, _, distanced, _) = Layout-distances w i.layout in
    let measured : sector_size w ≡ ok 0 = distanced ∙ ap ok (omega (arith, i.position)) in
    let p =
      prepare i (w.iov_cursor + 1) (w.iov_cursor + 1 + 0) (w.iov_cursor + 2) (omega arith)
        (omega arith) (λ h. omega arith) in
    let a = p.written in
    let rest =
      body_empty a.inv c o (x ∷ xs) (omega (arith, p.count, p.enough)) (a.foreign c f)
        (a.kept c o (x ∷ xs) f held) in
    record {
      sent_after = sent ++ (x ∷ xs);
      sector_after = [];
      content = append-nil (sent ++ (x ∷ xs)) ∙ ap (λ s. s ++ (x ∷ xs)) (sym (append-nil sent));
      written =
          rw (measured, nonzero x xs)
            (Written->>=
              (λ w1.
                (if w1.iov_cursor == 0 then write_iov w1.sector_start 0 w1 else ok w1)
                >>= write_iov (at c o) (length (x ∷ xs)))
              a rest);
    }
write_bytes-Sent {w} {sent} {sector = y ∷ sector} i c o (x ∷ xs) f held =
    let (_, _, _, distanced, _) = Layout-distances w i.layout in
    let measured : sector_size w ≡ ok (length (y ∷ sector)) =
      distanced ∙ ap ok (omega (arith, i.position)) in
    let p =
      prepare i (w.iov_cursor + 1) (w.iov_cursor + 1 + 1) (w.iov_cursor + 2) (omega arith)
        (omega arith) (λ h. omega arith) in
    let a = p.written in
    let rest =
      body_full a.inv c o (x ∷ xs) (omega (arith, p.count, p.enough)) (a.foreign c f)
        (a.kept c o (x ∷ xs) f held) in
    record {
      sent_after = sent ++ (y ∷ sector) ++ (x ∷ xs);
      sector_after = [];
      content = append-nil (sent ++ (y ∷ sector) ++ (x ∷ xs));
      written =
          rw (measured, nonzero x xs, positive y sector)
            (Written->>=
              (λ w1.
                write_iov w1.sector_start (length (y ∷ sector)) w1
                >>= write_iov (at c o) (length (x ∷ xs)))
              a rest);
    }

-- Where there is room for the length, or no piece yet, and the characters are in the caller's
-- memory, `write_string` of fewer than 2 ^ 31 characters returns, and adds their number as a
-- varint and then the characters to what was written before.
pub write_string-prefixed :
    {w : WriteBuffer} {sent sector : List ℕ} (i : Inv w sent sector) (c o : ℕ) (xs : List ℕ)
    → length xs < 2 ^ 31
    → CanWrite i (length (varint (length xs)))
    → Foreign i c
    → Holds w.heap (at c o) xs
    → Sent i
        (length (varint (length xs)) + 0)
        (write_string (at c o) (length xs) w)
        (varint (length xs) ++ xs)
unfolding write_string
write_string-prefixed {w} i c o xs small can f held =
    let same : length xs % 2 ^ 32 ≡ length xs = omega arith in
    let prefix = Appended-Sent (write_varint-varint i (length xs) small can) in
    rw same (
      Sent->>= (write_bytes (at c o) (length xs)) prefix (
        write_bytes-Sent prefix.written.inv c o xs (prefix.written.foreign c f)
          (prefix.written.kept c o xs f held)))

-- `flush_buffer` closes a sector with bytes, and says whether there were any.
pub record Flushed {w : WriteBuffer} {sent sector : List ℕ} (i : Inv w sent sector) : Type 0 where
  pub flushed : Bool
  pub after : WriteBuffer
  pub returns : flush_buffer w ≡ ok (flushed, after)
  pub inv : Inv after (sent ++ sector) []
  pub foreign : (c : ℕ) → Foreign i c → Foreign inv c
  pub kept :
      (c o : ℕ) (xs : List ℕ)
      → Foreign i c
      → Holds w.heap (at c o) xs
      → Holds after.heap (at c o) xs
  pub growth : inv.layout.capacity ≤ i.layout.capacity
  pub spare :
      0 < length sector
      → w.iov_cursor + 1 < w.iov_size
      → (after.iov_cursor ≡ w.iov_cursor + 1)
        × (after.iov_size ≡ w.iov_size)
        × (after.iov (w.iov_cursor + 1) ≡ w.iov (w.iov_cursor + 1))
  pub some_pieces : 0 < length sector + w.iov_cursor → 0 < after.iov_cursor

pub flush_buffer-Flushed :
    {w : WriteBuffer} {sent sector : List ℕ} (i : Inv w sent sector) → Flushed i
unfolding flush_buffer
flush_buffer-Flushed {w} {sent} {sector = []} i =
    let (_, _, _, distanced, _) = Layout-distances w i.layout in
    let measured : sector_size w ≡ ok 0 = distanced ∙ ap ok (omega (arith, i.position)) in
    record {
      flushed = false;
      after = w;
      returns = rw measured refl;
      inv = subst (λ s. Inv w s []) (sym (append-nil sent)) i;
      foreign = λ c f. record { apart = f.apart; known = f.known };
      kept = λ c o xs f h. h;
      growth = omega arith;
      spare = λ pos h. absurd (omega arith);
      some_pieces = λ h. omega arith;
    }
flush_buffer-Flushed {w} {sent} {sector = y ∷ sector} i =
    let (_, _, _, distanced, _) = Layout-distances w i.layout in
    let measured : sector_size w ≡ ok (length (y ∷ sector)) =
      distanced ∙ ap ok (omega (arith, i.position)) in
    let p =
      prepare i w.iov_cursor (w.iov_cursor + 1) (w.iov_cursor + 1) (omega arith) (omega arith)
        (λ h. h) in
    let one = close_sector p.written.inv (omega (arith, p.count, p.enough)) in
    record {
      flushed = true;
      after = one.written.after;
      returns = rw (measured, positive y sector, p.written.returns, one.written.returns) refl;
      inv = one.written.inv;
      foreign = λ c f. one.written.foreign c (p.written.foreign c f);
      kept =
          λ c o xs f h. one.written.kept c o xs (p.written.foreign c f) (p.written.kept c o xs f h);
      growth = omega (arith, p.written.growth, one.written.growth);
      spare = λ pos h. (
        one.count ∙ ap (λ (n : ℕ). n + 1) p.count,
        one.slots ∙ ap (λ (v : WriteBuffer). v.iov_size) (p.stays h),
        one.above (w.iov_cursor + 1) (omega (arith, p.count))
            ∙ ap (λ (v : WriteBuffer). v.iov (w.iov_cursor + 1)) (p.stays h),
      );
      some_pieces = λ h. omega (arith, one.count);
    }
