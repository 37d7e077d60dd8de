-- ===== src/WriteBuffer/Iovecs.antt =====
-- `iov_resize`, and the pieces that a write adds to the array.
use mosss.Common.{
  ℕ, ◌≤◌, ◌<◌, ◌≡◌, ◌≢◌, inl, inr, refl, ap, ◌∙◌, List, [], ◌++◌, length, ok, arith, none, ltb, leb,
  if◌then◌else◌,
}
use mosss.Memory.{at}
use mosss.Memory.Holds.{Holds}
use mosss.WriteBuffer.{WriteBuffer, iov_resize, write_iov}
use mosss.WriteBuffer.Invariant.{Layout, Inv, Gathers-map, Foreign, Written}
use mosss.WriteBuffer.Pieces.{Listed, write_iov-Listed}
use native.Mathlib.Decide.{dec_le}

abbrev resized : WriteBuffer → ℕ → WriteBuffer
resized w size = record w { iov_size = size; iov = λ i. if ltb i w.iov_size then w.iov i else none }

resized-Inv :
    {w : WriteBuffer} {sent sector : List ℕ} (i : Inv w sent sector) (size : ℕ)
    → w.iov_size ≤ size
    → Inv (resized w size) sent sector
resized-Inv {w} i size h =
    let kept : (k : ℕ) → k < w.iov_size → (resized w size).iov k ≡ w.iov k =
      λ k below. ground arith in
    let layout : Layout (resized w size) = record {
      block = i.layout.block;
      capacity = i.layout.capacity;
      start = i.layout.start;
      position = i.layout.position;
      buf = i.layout.buf;
      end = i.layout.end;
      sector_start = i.layout.sector_start;
      cursor = i.layout.cursor;
      header = i.layout.header;
      ordered = i.layout.ordered;
      fits = i.layout.fits;
      small = i.layout.small;
      alive = i.layout.alive;
      size = i.layout.size;
      known = i.layout.known;
    } in
    record {
      layout = layout;
      holds = i.holds;
      position = i.position;
      pieces = Gathers-map (λ k below. kept k (omega (arith, i.cursor_le))) (λ v xs p. p) i.pieces;
      cursor_le = omega (arith, i.cursor_le);
      packet_length = i.packet_length;
      first = elim i.first [
        | inl none_yet ↦ inl none_yet
        | inr f ↦ inr (record {
          vec = f.vec;
          listed = kept 0 (omega (arith, f.some_pieces, i.cursor_le)) ∙ f.listed;
          base = f.base;
          some_pieces = f.some_pieces;
        })
      ];
    }

-- The array of iovecs after the test and the resize in front of a write.
pub record Prepared {w : WriteBuffer} {sent sector : List ℕ} (i : Inv w sent sector)
    (least needed target : ℕ) : Type 0 where
  pub written :
      Written i 0 (if leb w.iov_size needed then iov_resize target w else ok w) sent sector
  pub count : written.after.iov_cursor ≡ w.iov_cursor
  pub enough : least < written.after.iov_size
  pub stays : needed < w.iov_size → written.after ≡ w

pub prepare :
    {w : WriteBuffer} {sent sector : List ℕ} (i : Inv w sent sector) (least needed target : ℕ)
    → least < target
    → least ≤ needed
    → (w.iov_size ≤ needed → w.iov_size ≤ target)
    → Prepared i least needed target
unfolding iov_resize resized-Inv
prepare {w} i least needed target lt le up = elim (dec_le w.iov_size needed) [
  | yes short ↦ record {
    written = record {
      after = resized w target;
      returns = ground (arith, up short);
      inv = resized-Inv i target (up short);
      foreign = λ c f. record { apart = f.apart; known = f.known };
      kept = λ c o ys f h. h;
      room_left = omega arith;
      growth = omega arith;
    };
    count = refl;
    enough = lt;
    stays = λ h. absurd (omega arith);
  }
  | no long ↦ record {
    written = record {
      after = w;
      returns = ground arith;
      inv = i;
      foreign = λ c f. f;
      kept = λ c o ys f h. h;
      room_left = omega arith;
      growth = omega arith;
    };
    count = refl;
    enough = omega arith;
    stays = λ h. refl;
  }
]

-- The sector becomes a piece.
pub close_sector :
    {w : WriteBuffer} {sent sector : List ℕ} (i : Inv w sent sector)
    → w.iov_cursor < w.iov_size
    → Listed i (write_iov w.sector_start (length sector) w) (sent ++ sector)
close_sector {w} {sent} {sector} i below =
    write_iov-Listed i w.sector_start sector
      (record {
        owner = i.layout.block;
        offset = i.layout.start;
        base = i.layout.sector_start;
        len = refl;
        holds = i.holds;
        known = i.layout.known;
        apart = inr (i.layout.header, omega (arith, i.position));
      })
      below
      (λ none_yet. elim i.first [
        | inl (_, begin) ↦ i.layout.sector_start ∙ ap (at i.layout.block) begin
        | inr f ↦ absurd (omega (arith, f.some_pieces))
      ])

-- Bytes of the caller become a piece, when the sector is empty.
pub add-Foreign :
    {w : WriteBuffer} {sent : List ℕ} (i : Inv w sent []) (c o : ℕ) (xs : List ℕ)
    → w.iov_cursor < w.iov_size
    → w.iov_cursor ≢ 0
    → Foreign i c
    → Holds w.heap (at c o) xs
    → Listed i (write_iov (at c o) (length xs) w) (sent ++ xs)
add-Foreign i c o xs below some_pieces f held =
    write_iov-Listed i (at c o) xs
      (record {
        owner = c;
        offset = o;
        base = refl;
        len = refl;
        holds = held;
        known = f.known;
        apart = inl f.apart;
      })
      below (λ none_yet. absurd (some_pieces none_yet))
