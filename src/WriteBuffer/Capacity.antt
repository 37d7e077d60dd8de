-- ===== src/WriteBuffer/Capacity.antt =====
-- `ensure_capacity` and `buffer_resize`: the room for a write, and what moving the buffer keeps.
use mosss.Common.{
  ℕ, suc, ◌+◌, ◌-◌, ◌*◌, ◌^◌, ◌≤◌, ◌<◌, ◌≡◌, refl, ap, subst, ◌∙◌, inl, inr, List, ok, err,
  undefined, arith, false, Option, some, le→ltb, ltb,
}
use mosss.Memory.{load, in_range, at, Memory, Block, distance, allocate}
use mosss.Memory.Holds.{Holds, Room, Holds-Frame}
use mosss.Memory.Copy.{
  allocate_lem, copy_bytes-Copied, Copied, Copied-Holds, delete-Deleted, Deleted, Holds-block,
}
use mosss.WriteBuffer.{Iovec, WriteBuffer, buffer_resize, ensure_capacity}
use native.Mathlib.Decide.{dec_le}
use mosss.WriteBuffer.Invariant.{Layout, Inv, Gathers, nothing, piece, Foreign, room, First}

-- Two pointers into one block.
pub distance_at : (b o n : ℕ) → n ≤ o → o < 2 ^ 63 → distance (at b o) (at b n) ≡ ok (o - n)
unfolding distance
distance_at b o n h s = ground arith

pub Layout-distances :
    (w : WriteBuffer) (l : Layout w)
    → (distance w.end w.buf ≡ ok l.capacity)
      × (distance w.cursor w.buf ≡ ok l.position)
      × (distance w.sector_start w.buf ≡ ok l.start)
      × (distance w.cursor w.sector_start ≡ ok (l.position - l.start))
      × (distance w.end w.cursor ≡ ok (l.capacity - l.position))
Layout-distances w l =
    let cap = l.capacity in
    let pos = l.position in
    let start = l.start in
    rw
      (
        l.buf,
        l.end,
        l.cursor,
        l.sector_start,
        distance_at l.block cap 0 (omega arith) l.small,
        distance_at l.block pos 0 (omega arith) (omega (arith, l.fits, l.small)),
        distance_at l.block start 0 (omega arith) (omega (arith, l.ordered, l.fits, l.small)),
        distance_at l.block pos start l.ordered (omega (arith, l.fits, l.small)),
        distance_at l.block cap pos l.fits l.small,
      )
      (ap ok (omega arith), ap ok (omega arith), ap ok (omega arith), refl, refl)

Gathers-zero :
    {m m' : Memory} {iov : ℕ → Option Iovec} {b start b' start' n : ℕ} {bs : List ℕ}
    → n ≡ 0
    → Gathers m iov b start n bs
    → Gathers m' iov b' start' n bs
Gathers-zero z nothing = nothing
Gathers-zero z (piece vec xs g listed p e) = absurd (omega arith)

-- The move to a new block of `size` bytes.
module _ {w : WriteBuffer} {sent sector : List ℕ} (i : Inv w sent sector) (size : ℕ)
    (larger : i.layout.capacity ≤ size) (small : size < 2 ^ 63) where
  open i.layout use {block, capacity, start, position}

  abbrev fresh : Memory
  fresh = allocate w.heap size

  old_room : Room fresh block 0 position
  old_room =
      let same = (allocate_lem w.heap size).1 block i.layout.known in
      record {
        alive = ap (λ (b : Block). b.alive) same ∙ i.layout.alive;
        fits = omega (arith, ap (λ (b : Block). b.size) same, i.layout.size, i.layout.fits);
      }

  new_room : Room fresh w.heap.next 0 position
  new_room =
      let r = (allocate_lem w.heap size).0 in
      record { alive = r.alive; fits = omega (arith, r.fits, i.layout.fits) }

  copied : Copied fresh block 0 w.heap.next 0 position
  copied =
      copy_bytes-Copied position fresh block 0 w.heap.next 0 (inr (omega arith)) old_room new_room

  freed : Deleted copied.after block
  freed = delete-Deleted copied.after block (copied.frame.alive block ∙ old_room.alive)

  abbrev moved : WriteBuffer
  moved = record w {
    heap = freed.after;
    buf = at w.heap.next 0;
    end = at w.heap.next (0 + size);
    sector_start = at w.heap.next (0 + start);
    cursor = at w.heap.next (0 + position);
  }

  buffer_resize-moved : buffer_resize size w ≡ ok moved
  unfolding buffer_resize
  buffer_resize-moved =
      let (_, used, begin, _, _) = Layout-distances w i.layout in
      let keeps : ltb size position ≡ false = le→ltb size position (omega (arith, i.layout.fits)) in
      ground (arith, used, begin, keeps, i.layout.buf, copied.runs, freed.runs)

  next_same : freed.after.next ≡ suc w.heap.next
  unfolding allocate
  next_same = freed.next ∙ copied.frame.next

  moved-Layout : Layout moved
  moved-Layout =
      let other = freed.other w.heap.next (omega (arith, i.layout.known)) in
      record {
        block = w.heap.next;
        capacity = size;
        start = start;
        position = position;
        buf = refl;
        end = ap (at w.heap.next) (omega arith);
        sector_start = ap (at w.heap.next) (omega arith);
        cursor = ap (at w.heap.next) (omega arith);
        header = i.layout.header;
        ordered = i.layout.ordered;
        fits = omega (arith, i.layout.fits);
        small = small;
        alive =
            ap (λ (b : Block). b.alive) other
            ∙ copied.frame.alive w.heap.next
            ∙ (allocate_lem w.heap size).0.alive;
        size =
            ap (λ (b : Block). b.size) other
            ∙ copied.frame.size w.heap.next
            ∙ (allocate_lem w.heap size).2;
        known = omega (arith, next_same);
      }

  moved_sector : Holds freed.after (at w.heap.next start) sector
  moved_sector =
      Holds-block copied.after freed.after w.heap.next start sector
        (freed.other w.heap.next (omega (arith, i.layout.known)))
        (subst (λ o. Holds copied.after (at w.heap.next o) sector) (omega arith)
          (Copied-Holds copied start sector new_room (omega (arith, i.position)) (
            subst (λ o. Holds fresh (at block o) sector) (omega arith)
              (Holds-block w.heap fresh block start sector
                ((allocate_lem w.heap size).1 block i.layout.known) i.holds))))

  moved_kept :
      (c o : ℕ) (xs : List ℕ)
      → Foreign i c
      → Holds w.heap (at c o) xs
      → Holds freed.after (at c o) xs
  moved_kept c o xs f h = Holds-block copied.after freed.after c o xs (freed.other c f.apart) (
      Holds-Frame c o xs copied.frame (inl (omega (arith, f.known)))
        (Holds-block w.heap fresh c o xs ((allocate_lem w.heap size).1 c f.known) h))

  moved-Inv : w.iov_cursor ≡ 0 → Inv moved sent sector
  unfolding moved-Layout
  moved-Inv idle = record {
    layout = moved-Layout;
    holds = moved_sector;
    position = i.position;
    pieces = Gathers-zero idle i.pieces;
    cursor_le = i.cursor_le;
    packet_length = i.packet_length;
    first = elim i.first [
      | inl (none_yet, begin) ↦ inl (idle, begin)
      | inr f ↦ absurd (omega (arith, f.some_pieces))
    ];
  }

-- Where a write of `n` bytes is safe: they fit, or no iovec points into the buffer yet.
pub data CanWrite {w : WriteBuffer} {sent sector : List ℕ} (i : Inv w sent sector) (n : ℕ)
    : Type 0 where
  fits : n ≤ room i → CanWrite i n
  grows : w.iov_cursor ≡ 0 → i.layout.capacity + 33 * n < 2 ^ 63 → CanWrite i n

-- What `ensure_capacity` gives.
pub record Ensured {w : WriteBuffer} {sent sector : List ℕ} (i : Inv w sent sector) (n : ℕ)
    : Type 0 where
  pub after : WriteBuffer
  pub returns : ensure_capacity n w ≡ ok after
  pub inv : Inv after sent sector
  pub foreign : (c : ℕ) → Foreign i c → Foreign inv c
  pub kept :
      (c o : ℕ) (xs : List ℕ)
      → Foreign i c
      → Holds w.heap (at c o) xs
      → Holds after.heap (at c o) xs
  pub count : after.iov_cursor ≡ w.iov_cursor
  pub iov : after.iov ≡ w.iov
  pub slots : after.iov_size ≡ w.iov_size
  pub enough : n ≤ room inv
  pub room_left : room i ≤ room inv
  pub growth : inv.layout.capacity ≤ i.layout.capacity + 33 * n

already_fits :
    {w : WriteBuffer} {sent sector : List ℕ} (i : Inv w sent sector) (n : ℕ)
    → n ≤ room i
    → Ensured i n
already_fits {w} i n h =
    let (size, _, _, _, remaining) = Layout-distances w i.layout in
    record {
      after = w;
      returns = unfold ensure_capacity in ground (arith, size, remaining);
      inv = i;
      foreign = λ c f. f;
      kept = λ c o xs f held. held;
      count = refl;
      iov = refl;
      slots = refl;
      enough = h;
      room_left = omega arith;
      growth = omega arith;
    }

must_move :
    {w : WriteBuffer} {sent sector : List ℕ} (i : Inv w sent sector) (n : ℕ)
    → room i < n
    → w.iov_cursor ≡ 0
    → i.layout.capacity + 33 * n < 2 ^ 63
    → Ensured i n
unfolding moved-Inv moved-Layout
must_move {w} i n h idle small =
    let (size, _, _, _, remaining) = Layout-distances w i.layout in
    let target = i.layout.capacity + n + 32 in
    let larger : i.layout.capacity ≤ target = omega arith in
    let below : target < 2 ^ 63 = omega arith in
    record {
      after = moved i target larger below;
      returns =
          unfold ensure_capacity in
          ground (arith, size, remaining, buffer_resize-moved i target larger below);
      inv = moved-Inv i target larger below idle;
      foreign = λ c f. record {
        apart = omega (arith, f.known);
        known = omega (arith, f.known, next_same i target larger below);
      };
      kept = moved_kept i target larger below;
      count = refl;
      iov = refl;
      slots = refl;
      enough = omega (arith, i.layout.fits);
      room_left = omega (arith, i.layout.fits);
      growth = omega arith;
    }

-- `ensure_capacity` returns with room for the bytes, and with all that was written kept.
pub ensure_capacity-Ensured :
    {w : WriteBuffer} {sent sector : List ℕ} (i : Inv w sent sector) (n : ℕ)
    → CanWrite i n
    → Ensured i n
ensure_capacity-Ensured i n (fits h) = already_fits i n h
ensure_capacity-Ensured i n (grows idle small) = elim (dec_le n (room i)) [
  | yes h ↦ already_fits i n h
  | no h ↦ must_move i n (omega arith) idle small
]

-- Where a piece was written and there is no room for `n` bytes, `ensure_capacity` returns, and
-- leaves a first iovec that points into freed memory: a load through it is undefined.
pub ensure_capacity-dangling :
    {w : WriteBuffer} {sent sector : List ℕ} (i : Inv w sent sector) (f : First w i.layout.block)
    (n : ℕ)
    → room i < n
    → i.layout.capacity + 33 * n < 2 ^ 63
    → (after : WriteBuffer) × (ensure_capacity n w ≡ ok after)
      × (after.iov 0 ≡ some f.vec)
      × (load after.heap f.vec.iov_base ≡ err undefined)
unfolding ensure_capacity load in_range
ensure_capacity-dangling {w} i f n h small =
    let (size, _, _, _, remaining) = Layout-distances w i.layout in
    let target = i.layout.capacity + n + 32 in
    let larger : i.layout.capacity ≤ target = omega arith in
    let below : target < 2 ^ 63 = omega arith in
    (
      moved i target larger below,
      ground (arith, size, remaining, buffer_resize-moved i target larger below),
      f.listed,
      ap (load (moved i target larger below).heap) f.base
          ∙ ground (arith, (freed i target larger below).gone),
    )
