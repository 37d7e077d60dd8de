-- ===== src/WriteBuffer/Invariant.antt =====
-- What a `WriteBuffer` holds: the pieces that its iovecs list, and the current sector.
use mosss.Common.{
  ℕ, zero, suc, ◌+◌, ◌-◌, ◌%◌, ◌^◌, ◌≤◌, ◌<◌, ◌≡◌, ◌∙◌, ◌≢◌, ◌⊎◌, List, [], ◌++◌, length, ok, arith,
  true, Option, some, Result, ◌>>=◌, ◌*◌,
}
use mosss.Memory.{at, Memory}
use mosss.Memory.Holds.{Holds}
use mosss.WriteBuffer.{Iovec, WriteBuffer}

-- Where the four pointers are: at offsets of one allocated block, behind the five bytes that are
-- kept for the length.
pub record Layout (w : WriteBuffer) : Type 0 where
  pub block : ℕ
  pub capacity : ℕ
  pub start : ℕ
  pub position : ℕ
  pub buf : w.buf ≡ at block 0
  pub end : w.end ≡ at block capacity
  pub sector_start : w.sector_start ≡ at block start
  pub cursor : w.cursor ≡ at block position
  pub header : 5 ≤ start
  pub ordered : start ≤ position
  pub fits : position ≤ capacity
  pub small : capacity < 2 ^ 63
  pub alive : (w.heap.block block).alive ≡ true
  pub size : (w.heap.block block).size ≡ capacity
  pub known : block < w.heap.next

-- An iovec that points at the bytes `xs`, in memory of the caller or in the closed part of block
-- `b`, before `start`.
pub record Piece (m : Memory) (b start : ℕ) (vec : Iovec) (xs : List ℕ) : Type 0 where
  pub owner : ℕ
  pub offset : ℕ
  pub base : vec.iov_base ≡ at owner offset
  pub len : vec.iov_len ≡ length xs
  pub holds : Holds m (at owner offset) xs
  pub known : owner < m.next
  pub apart : (owner ≢ b) ⊎ ((5 ≤ offset) × (offset + length xs ≤ start))

-- The first `n` iovecs list the bytes `bs`, in this order.
pub data Gathers (m : Memory) (iov : ℕ → Option Iovec) (b start : ℕ) : ℕ → List ℕ → Type 0 where
  nothing : Gathers m iov b start zero []
  piece :
      {n : ℕ} {front bs : List ℕ} (vec : Iovec) (xs : List ℕ)
      → Gathers m iov b start n front
      → iov n ≡ some vec
      → Piece m b start vec xs
      → bs ≡ front ++ xs
      → Gathers m iov b start (suc n) bs

-- The first piece begins behind the five bytes.
pub record First (w : WriteBuffer) (block : ℕ) : Type 0 where
  pub vec : Iovec
  pub listed : w.iov 0 ≡ some vec
  pub base : vec.iov_base ≡ at block 5
  pub some_pieces : 0 < w.iov_cursor

-- All of it. The sector begins behind the five bytes as long as there is no piece.
pub record Inv (w : WriteBuffer) (sent sector : List ℕ) : Type 0 where
  pub layout : Layout w
  pub holds : Holds w.heap (at layout.block layout.start) sector
  pub position : layout.position ≡ layout.start + length sector
  pub pieces : Gathers w.heap w.iov layout.block layout.start w.iov_cursor sent
  pub cursor_le : w.iov_cursor ≤ w.iov_size
  pub packet_length : w.packet_length ≡ length sent % 2 ^ 32
  pub first : ((w.iov_cursor ≡ 0) × (layout.start ≡ 5)) ⊎ First w layout.block

abbrev pub room : {w : WriteBuffer} {sent sector : List ℕ} → Inv w sent sector → ℕ
room i = i.layout.capacity - i.layout.position

-- Bytes of the caller: in a block that is not the buffer's.
pub record Foreign {w : WriteBuffer} {sent sector : List ℕ} (i : Inv w sent sector) (c : ℕ)
    : Type 0 where
  pub apart : c ≢ i.layout.block
  pub known : c < w.heap.next

-- `result` is a normal return after which the buffer holds `sent'` and `sector'`. The memory of
-- the caller is as it was, and at most `n` bytes of room are gone.
pub record Written {w : WriteBuffer} {sent sector : List ℕ} (i : Inv w sent sector) (n : ℕ)
    (result : Result WriteBuffer) (sent' sector' : List ℕ) : Type 0 where
  pub after : WriteBuffer
  pub returns : result ≡ ok after
  pub inv : Inv after sent' sector'
  pub foreign : (c : ℕ) → Foreign i c → Foreign inv c
  pub kept :
      (c o : ℕ) (xs : List ℕ)
      → Foreign i c
      → Holds w.heap (at c o) xs
      → Holds after.heap (at c o) xs
  pub room_left : room i ≤ room inv + n
  pub growth : inv.layout.capacity ≤ i.layout.capacity + 33 * n

-- Pieces survive a change of memory that keeps the bytes they point at.
pub Gathers-map :
    {m m' : Memory} {iov iov' : ℕ → Option Iovec} {b start b' start' n : ℕ} {bs : List ℕ}
    → ((k : ℕ) → k < n → iov' k ≡ iov k)
    → ((vec : Iovec) (xs : List ℕ) → Piece m b start vec xs → Piece m' b' start' vec xs)
    → Gathers m iov b start n bs
    → Gathers m' iov' b' start' n bs
Gathers-map same keep nothing = nothing
Gathers-map same keep (piece {n = n} vec xs g listed p e) =
    piece vec xs (Gathers-map (λ k h. same k (omega arith)) keep g) (same n (omega arith) ∙ listed)
      (keep vec xs p) e

-- One write after the other.
unfoldable pub Written->>= :
    {w : WriteBuffer} {sent sector sent1 sector1 sent2 sector2 : List ℕ} {i : Inv w sent sector}
    {n m : ℕ} {result : Result WriteBuffer} (k : WriteBuffer → Result WriteBuffer)
    (a : Written i n result sent1 sector1)
    → Written a.inv m (k a.after) sent2 sector2
    → Written i (n + m) (result >>= k) sent2 sector2
Written->>= k a b = record {
  after = b.after;
  returns = rw a.returns b.returns;
  inv = b.inv;
  foreign = λ c f. b.foreign c (a.foreign c f);
  kept = λ c o xs f h. b.kept c o xs (a.foreign c f) (a.kept c o xs f h);
  room_left = omega (arith, a.room_left, b.room_left);
  growth = omega (arith, a.growth, b.growth);
}
