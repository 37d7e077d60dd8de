-- ===== src/WriteBuffer/Pieces.antt =====
-- `write_iov`, `iov_resize` and `write_bytes`: the list of the pieces.
use mosss.Common.{
  ℕ, ◌+◌, ◌%◌, ◌^◌, ◌<◌, ◌≡◌, inl, inr, refl, sym, ap, subst, ◌∙◌, List, [], ◌++◌, length, ok,
  arith, Result, some, lt→ltb, ◌>>=◌, ==_self, length-append, append_assoc,
}
use mosss.Memory.Copy.{update_ne}
use mosss.Memory.{Pointer, at, update}
use mosss.WriteBuffer.{Iovec, WriteBuffer, write_iov}
use mosss.WriteBuffer.Invariant.{
  Layout, Inv, Gathers, piece, Gathers-map, Piece, First, Written, Written->>=,
}
use mosss.WriteBuffer.Put.{Appended}

-- `result` is a normal return after which `bytes` follow what was in the pieces and the sector.
pub record Sent {w : WriteBuffer} {sent sector : List ℕ} (i : Inv w sent sector) (n : ℕ)
    (result : Result WriteBuffer) (bytes : List ℕ) : Type 0 where
  pub sent_after : List ℕ
  pub sector_after : List ℕ
  pub content : sent_after ++ sector_after ≡ sent ++ sector ++ bytes
  pub written : Written i n result sent_after sector_after

pub Appended-Sent :
    {w : WriteBuffer} {sent sector bytes : List ℕ} {i : Inv w sent sector} {n : ℕ}
    {result : Result WriteBuffer}
    → Appended i n result bytes
    → Sent i n result bytes
Appended-Sent {sent = sent} {sector} {bytes} a = record {
  sent_after = sent;
  sector_after = a.sector_after;
  content = ap (λ s. sent ++ s) a.content ∙ sym (append_assoc sent sector bytes);
  written = a.written;
}

pub Sent->>= :
    {w : WriteBuffer} {sent sector xs ys : List ℕ} {i : Inv w sent sector} {n m : ℕ}
    {result : Result WriteBuffer} (k : WriteBuffer → Result WriteBuffer) (a : Sent i n result xs)
    → Sent a.written.inv m (k a.written.after) ys
    → Sent i (n + m) (result >>= k) (xs ++ ys)
Sent->>= {sent = sent} {sector} {xs} {ys} k a b = record {
  sent_after = b.sent_after;
  sector_after = b.sector_after;
  content = b.content ∙ ap (λ s. s ++ ys) a.content ∙ append_assoc (sent ++ sector) xs ys;
  written = Written->>= k a.written b.written;
}

-- `result` is a normal return with one iovec more, after which the pieces are `bytes`, and the
-- sector is empty.
pub record Listed {w : WriteBuffer} {sent sector : List ℕ} (i : Inv w sent sector)
    (result : Result WriteBuffer) (bytes : List ℕ) : Type 0 where
  pub written : Written i 0 result bytes []
  pub count : written.after.iov_cursor ≡ w.iov_cursor + 1
  pub slots : written.after.iov_size ≡ w.iov_size
  pub above : (k : ℕ) → w.iov_cursor < k → written.after.iov k ≡ w.iov k

-- One more iovec: `vec`, at the bytes `xs`, while the bytes of the sector end at the cursor.
module _ {w : WriteBuffer} {sent sector : List ℕ} (i : Inv w sent sector) (base : Pointer)
    (xs : List ℕ)
    (p : Piece w.heap i.layout.block i.layout.position
      (record { iov_base = base; iov_len = length xs })
      xs)
    (fits : w.iov_cursor < w.iov_size)
    (begins : w.iov_cursor ≡ 0 → base ≡ at i.layout.block 5) where
  abbrev vec : Iovec
  vec = record { iov_base = base; iov_len = length xs }

  abbrev longer : WriteBuffer
  longer = record w {
    packet_length = (w.packet_length + length xs) % 2 ^ 32;
    iov = update w.iov w.iov_cursor (some vec);
    iov_cursor = w.iov_cursor + 1;
    sector_start = w.cursor;
  }

  write_iov_lem : write_iov base (length xs) w ≡ ok longer
  unfolding write_iov
  write_iov_lem = rw (lt→ltb w.iov_cursor w.iov_size fits) refl

  longer-Layout : Layout longer
  longer-Layout = record {
    block = i.layout.block;
    capacity = i.layout.capacity;
    start = i.layout.position;
    position = i.layout.position;
    buf = i.layout.buf;
    end = i.layout.end;
    sector_start = i.layout.cursor;
    cursor = i.layout.cursor;
    header = omega (arith, i.layout.header, i.layout.ordered);
    ordered = omega arith;
    fits = i.layout.fits;
    small = i.layout.small;
    alive = i.layout.alive;
    size = i.layout.size;
    known = i.layout.known;
  }

  update_here : longer.iov w.iov_cursor ≡ some vec
  unfolding update
  update_here = rw (==_self w.iov_cursor) refl

  update_below : (k : ℕ) → k < w.iov_cursor → longer.iov k ≡ w.iov k
  unfolding update
  update_below k h = ground arith

  lower :
      (v : Iovec) (ys : List ℕ)
      → Piece w.heap i.layout.block i.layout.start v ys
      → Piece w.heap i.layout.block i.layout.position v ys
  lower v ys q = record {
    owner = q.owner;
    offset = q.offset;
    base = q.base;
    len = q.len;
    holds = q.holds;
    known = q.known;
    apart = elim q.apart [
      | inl ne ↦ inl ne
      | inr (from, to) ↦ inr (from, omega (arith, i.layout.ordered))
    ];
  }

  longer-first : First longer i.layout.block
  longer-first = elim i.first [
    | inl (none_yet, _) ↦ record {
      vec = vec;
      listed = ap longer.iov (sym none_yet) ∙ update_here;
      base = begins none_yet;
      some_pieces = omega arith;
    }
    | inr f ↦ record {
      vec = f.vec;
      listed = update_below 0 f.some_pieces ∙ f.listed;
      base = f.base;
      some_pieces = omega arith;
    }
  ]

  longer-Inv : Inv longer (sent ++ xs) []
  unfolding longer-Layout
  longer-Inv = record {
    layout = longer-Layout;
    holds = tt;
    position = omega arith;
    pieces =
        subst (λ n. Gathers w.heap longer.iov i.layout.block i.layout.position n (sent ++ xs))
          (omega arith) (piece vec xs (Gathers-map update_below lower i.pieces) update_here p refl);
    cursor_le = omega arith;
    packet_length = omega (arith, i.packet_length, length-append sent xs);
    first = inr longer-first;
  }

  pub write_iov-Listed : Listed i (write_iov base (length xs) w) (sent ++ xs)
  unfolding longer-Inv longer-Layout
  write_iov-Listed = record {
    written = record {
      after = longer;
      returns = write_iov_lem;
      inv = longer-Inv;
      foreign = λ c f. record { apart = f.apart; known = f.known };
      kept = λ c o ys f h. h;
      room_left = omega arith;
      growth = omega arith;
    };
    count = refl;
    slots = refl;
    above = λ k h. update_ne w.iov w.iov_cursor k (some vec) (λ e. absurd (omega arith));
  }
