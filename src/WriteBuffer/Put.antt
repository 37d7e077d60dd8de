-- ===== src/WriteBuffer/Put.antt =====
-- Bytes put at the cursor: what a write leaves in the sector.
use mosss.Common.{
  ℕ, ◌+◌, ◌≤◌, ◌≡◌, refl, ap, subst, ◌∙◌, inl, inr, List, ◌++◌, length, ok, arith, Result,
  append_assoc, length-append, ◌>>=◌,
}
use mosss.Memory.{at, Memory, advance, store_bytes}
use mosss.Memory.Holds.{Holds, Room, Holds-Frame, Holds-append, Stored, store_bytes-Stored}
use mosss.WriteBuffer.{WriteBuffer}
use mosss.WriteBuffer.Invariant.{
  Layout, Inv, Gathers-map, Piece, Foreign, Written, Written->>=, room,
}
use mosss.WriteBuffer.Capacity.{CanWrite, fits, grows, Ensured}

-- Bytes put at the cursor, in room that is there.
module _ {w : WriteBuffer} {sent sector : List ℕ} (i : Inv w sent sector) (bytes : List ℕ)
    (enough : length bytes ≤ room i) where
  open i.layout use {block, capacity, start, position}

  free : Room w.heap block position (length bytes)
  free = record { alive = i.layout.alive; fits = omega (arith, i.layout.size, i.layout.fits) }

  stored : Stored w.heap block position bytes
  stored = store_bytes-Stored w.heap block position bytes free

  abbrev put : WriteBuffer
  put = record w { heap = stored.after; cursor = at block (position + length bytes) }

  put-store : store_bytes w.heap w.cursor bytes ≡ ok stored.after
  put-store = ap (λ p. store_bytes w.heap p bytes) i.layout.cursor ∙ stored.runs

  put-Layout : Layout put
  put-Layout = record {
    block = block;
    capacity = capacity;
    start = start;
    position = position + length bytes;
    buf = i.layout.buf;
    end = i.layout.end;
    sector_start = i.layout.sector_start;
    cursor = refl;
    header = i.layout.header;
    ordered = omega (arith, i.layout.ordered);
    fits = omega (arith, i.layout.fits);
    small = i.layout.small;
    alive = stored.frame.alive block ∙ i.layout.alive;
    size = stored.frame.size block ∙ i.layout.size;
    known = omega (arith, stored.frame.next, i.layout.known);
  }

  put-Piece :
      (vec : _) (xs : List ℕ)
      → Piece w.heap block start vec xs
      → Piece stored.after block start vec xs
  put-Piece vec xs p = record {
    owner = p.owner;
    offset = p.offset;
    base = p.base;
    len = p.len;
    holds =
        Holds-Frame p.owner p.offset xs stored.frame
          (elim p.apart [
            | inl ne ↦ inl ne
            | inr below ↦ inr (inl (omega (arith, below.1, i.layout.ordered)))
          ])
          p.holds;
    known = omega (arith, p.known, stored.frame.next);
    apart = p.apart;
  }

  put-Inv : Inv put sent (sector ++ bytes)
  unfolding put-Layout
  put-Inv = record {
    layout = put-Layout;
    holds =
        Holds-append stored.after (at block start) sector bytes
          (Holds-Frame block start sector stored.frame (inr (inl (omega (arith, i.position))))
            i.holds)
          (subst (λ o. Holds stored.after (at block o) bytes) i.position stored.holds);
    position = omega (arith, i.position, length-append sector bytes);
    pieces = Gathers-map (λ k h. refl) put-Piece i.pieces;
    cursor_le = i.cursor_le;
    packet_length = i.packet_length;
    first = elim i.first [
      | inl none_yet ↦ inl none_yet
      | inr f ↦
          inr
            (record { vec = f.vec; listed = f.listed; base = f.base; some_pieces = f.some_pieces })
    ];
  }

  put_kept :
      (c o : ℕ) (xs : List ℕ)
      → Foreign i c
      → Holds w.heap (at c o) xs
      → Holds stored.after (at c o) xs
  put_kept c o xs f h = Holds-Frame c o xs stored.frame (inl f.apart) h

-- `result` is a normal return after which `bytes` stand at the end of the sector.
pub record Appended {w : WriteBuffer} {sent sector : List ℕ} (i : Inv w sent sector) (n : ℕ)
    (result : Result WriteBuffer) (bytes : List ℕ) : Type 0 where
  pub sector_after : List ℕ
  pub content : sector_after ≡ sector ++ bytes
  pub written : Written i n result sent sector_after
  pub count : written.after.iov_cursor ≡ w.iov_cursor
  pub iov : written.after.iov ≡ w.iov
  pub slots : written.after.iov_size ≡ w.iov_size

-- Room for `n + m` bytes is room for `m` bytes after the first `n`.
pub CanWrite_rest :
    {w : WriteBuffer} {sent sector bytes : List ℕ} {i : Inv w sent sector} {n : ℕ}
    {result : Result WriteBuffer} (m : ℕ) (a : Appended i n result bytes)
    → CanWrite i (n + m)
    → CanWrite a.written.inv m
CanWrite_rest m a (fits h) = fits (omega (arith, a.written.room_left))
CanWrite_rest m a (grows idle small) = grows (a.count ∙ idle) (omega (arith, a.written.growth))

pub CanWrite_less :
    {w : WriteBuffer} {sent sector : List ℕ} {i : Inv w sent sector} (n m : ℕ)
    → n ≤ m
    → CanWrite i m
    → CanWrite i n
CanWrite_less n m le (fits h) = fits (omega arith)
CanWrite_less n m le (grows idle small) = grows idle (omega arith)

pub Appended->>= :
    {w : WriteBuffer} {sent sector xs ys : List ℕ} {i : Inv w sent sector} {n m : ℕ}
    {result : Result WriteBuffer} (k : WriteBuffer → Result WriteBuffer)
    (a : Appended i n result xs)
    → Appended a.written.inv m (k a.written.after) ys
    → Appended i (n + m) (result >>= k) (xs ++ ys)
unfolding Written->>=
Appended->>= {sector = sector} {xs} {ys} k a b = record {
  sector_after = b.sector_after;
  content = b.content ∙ ap (λ s. s ++ ys) a.content ∙ append_assoc sector xs ys;
  written = Written->>= k a.written b.written;
  count = b.count ∙ a.count;
  iov = b.iov ∙ a.iov;
  slots = b.slots ∙ a.slots;
}

-- What `ensure_capacity` and a store of `bytes` leave.
pub Appended_put :
    {w : WriteBuffer} {sent sector : List ℕ} {i : Inv w sent sector} {n : ℕ} (bytes : List ℕ)
    (e : Ensured i n) (long : length bytes ≡ n) (result : Result WriteBuffer)
    → ((m : Memory)
        → store_bytes e.after.heap e.after.cursor bytes ≡ ok m
        → result ≡ ok (record e.after { heap = m; cursor = advance e.after.cursor (length bytes) }))
    → Appended i n result bytes
unfolding put-Inv put-Layout
Appended_put {w} {sent} {sector} {i} {n} bytes e long result returns =
    let enough : length bytes ≤ room e.inv = omega (arith, e.enough, long) in
    let m = stored e.inv bytes enough in
    record {
      sector_after = sector ++ bytes;
      content = refl;
      written = record {
        after = put e.inv bytes enough;
        returns =
            returns m.after (put-store e.inv bytes enough)
            ∙ ap (λ p. ok (record e.after { heap = m.after; cursor = p }))
                (ap (λ p. advance p (length bytes)) e.inv.layout.cursor);
        inv = put-Inv e.inv bytes enough;
        foreign = λ c f. record {
          apart = (e.foreign c f).apart;
          known = omega (arith, (e.foreign c f).known, m.frame.next);
        };
        kept = λ c o xs f h. put_kept e.inv bytes enough c o xs (e.foreign c f) (e.kept c o xs f h);
        room_left = omega (arith, e.room_left, long);
        growth = e.growth;
      };
      count = e.count;
      iov = e.iov;
      slots = e.slots;
    }
