-- ===== src/Clientbound/Fields.antt =====
-- A packet as the protocol describes it: an id and fields. The lemmas build one from the writes.
use mosss.Common.{
  ℕ, ◌+◌, ◌%◌, ◌^◌, ◌≤◌, ◌<◌, ◌≡◌, refl, ap, subst, List, [], ◌∷◌, ◌++◌, length, arith, Bool,
  if◌then◌else◌, Result, ◌>>=◌, ◌⊎◌, inl, inr, Option, length-append,
}
use mosss.Memory.{at, Memory}
use mosss.Memory.Holds.{Holds}
use mosss.Bytes.Order.{be_bytes}
use mosss.Varint.{varint, length-varint}
use mosss.ReadBuffer.{Uuid}
use mosss.WriteBuffer.{
  Iovec, WriteBuffer, write_byte, write_bool, write_long, write_uuid, write_string, write_varint,
  finalize,
}
use mosss.WriteBuffer.Invariant.{Inv, Gathers, nothing, piece, Foreign, room}
use mosss.WriteBuffer.Capacity.{CanWrite, fits}
use mosss.WriteBuffer.Numbers.{
  write_byte_lem, write_bool_lem, write_numbers-be_bytes, write_uuid-be_bytes,
}
use mosss.WriteBuffer.Varints.{write_varint-varint}
use mosss.WriteBuffer.Pieces.{Sent, Sent->>=, Appended-Sent}
use mosss.WriteBuffer.Strings.{write_string-prefixed}
use mosss.WriteBuffer.Frame.{Framed, finalize-Framed}
use mosss.Clientbound.{Text}

pub data Field : Type 0 where
  byte : ℕ → Field
  boolean : Bool → Field
  number : ℕ → Field
  long : ℕ → Field
  uuid : ℕ → ℕ → Field
  text : List ℕ → Field

abbrev pub field_bytes : Field → List ℕ
field_bytes (byte x) = x ∷ []
field_bytes (boolean b) = (if b then 1 else 0) ∷ []
field_bytes (number x) = varint x
field_bytes (long x) = be_bytes 8 x
field_bytes (uuid most least) = be_bytes 8 most ++ be_bytes 8 least
field_bytes (text xs) = varint (length xs) ++ xs

abbrev pub append_fields : List ℕ → List Field → List ℕ
append_fields bytes [] = bytes
append_fields bytes (field ∷ fields) = append_fields (bytes ++ field_bytes field) fields

abbrev pub fields_bytes : List Field → List ℕ
fields_bytes = append_fields []

-- The characters `xs` of a string in the caller's memory.
pub record Given {w : WriteBuffer} {sent sector : List ℕ} (i : Inv w sent sector) (t : Text)
    (xs : List ℕ) : Type 0 where
  pub block : ℕ
  pub offset : ℕ
  pub start : t.start ≡ at block offset
  pub size : t.size ≡ length xs
  pub small : length xs < 2 ^ 31
  pub foreign : Foreign i block
  pub holds : Holds w.heap (at block offset) xs

pub begin-byte :
    {w : WriteBuffer} (i : Inv w [] []) (x : ℕ)
    → x < 256
    → 1 ≤ room i
    → Sent i 1 (write_byte x w) (x ∷ [])
begin-byte {w} i x small h =
    let same : x % 256 ≡ x = omega arith in
    subst (λ y. Sent i 1 (write_byte x w) (y ∷ [])) same
      (Appended-Sent (write_byte_lem i x (fits h)))

-- A bound on the room that was used can be raised.
pub Sent-most :
    {w : WriteBuffer} {sent sector xs : List ℕ} {i : Inv w sent sector} {n : ℕ}
    {r : Result WriteBuffer} (m : ℕ)
    → n ≤ m
    → Sent i n r xs
    → Sent i m r xs
Sent-most m h a = record {
  sent_after = a.sent_after;
  sector_after = a.sector_after;
  content = a.content;
  written = record {
    after = a.written.after;
    returns = a.written.returns;
    inv = a.written.inv;
    foreign = a.written.foreign;
    kept = a.written.kept;
    room_left = omega (arith, a.written.room_left);
    growth = omega (arith, a.written.growth);
  };
}

Gathers-count :
    {m : Memory} {iov : ℕ → Option Iovec} {b start n : ℕ} {bs : List ℕ}
    → Gathers m iov b start n bs
    → ((n ≡ 0) × (length bs ≡ 0)) ⊎ (0 < n)
Gathers-count nothing = inl (refl, refl)
Gathers-count (piece {n = n} vec xs g listed p e) = inr (omega arith)

-- The writes so far, from an empty buffer: at most `n` bytes of room are used.
module _ {w : WriteBuffer} {i : Inv w [] []} {n : ℕ} {r : Result WriteBuffer} {xs : List ℕ}
    (a : Sent i n r xs) where
  left : (k : ℕ) → n + k ≤ room i → CanWrite a.written.inv k
  left k h = fits (omega (arith, a.written.room_left))

  pub then_long :
      (x : ℕ) → n + 8 ≤ room i → Sent i (n + 8) (r >>= write_long x) (xs ++ be_bytes 8 x)
  then_long x h =
      Sent->>= (write_long x) a
        (Appended-Sent (write_numbers-be_bytes a.written.inv x (left 8 h)).2)

  pub then_bool :
      (b : Bool)
      → n + 1 ≤ room i
      → Sent i (n + 1) (r >>= write_bool b) (xs ++ ((if b then 1 else 0) ∷ []))
  then_bool b h =
      Sent->>= (write_bool b) a (Appended-Sent (write_bool_lem a.written.inv b (left 1 h)))

  pub then_byte :
      (x : ℕ) → x < 256 → n + 1 ≤ room i → Sent i (n + 1) (r >>= write_byte x) (xs ++ (x ∷ []))
  then_byte x small h =
      let same : x % 256 ≡ x = omega arith in
      subst (λ y. Sent i (n + 1) (r >>= write_byte x) (xs ++ (y ∷ []))) same
        (Sent->>= (write_byte x) a (Appended-Sent (write_byte_lem a.written.inv x (left 1 h))))

  pub then_uuid :
      (u : Uuid)
      → n + 16 ≤ room i
      → Sent i (n + 16) (r >>= write_uuid u) (xs ++ (be_bytes 8 u.most ++ be_bytes 8 u.least))
  then_uuid u h =
      Sent->>= (write_uuid u) a (Appended-Sent (write_uuid-be_bytes a.written.inv u (left 16 h)))

  pub then_varint :
      (x : ℕ) → x < 2 ^ 31 → n + 5 ≤ room i → Sent i (n + 5) (r >>= write_varint x) (xs ++ varint x)
  then_varint x small h = Sent->>= (write_varint x) a (
      Sent-most 5 (length-varint x).1 (
        Appended-Sent (
          write_varint-varint a.written.inv x small (left _ (omega (arith, (length-varint x).1))))))

  pub then_text :
      (t : Text) (ys : List ℕ)
      → Given i t ys
      → n + 5 ≤ room i
      → Sent i (n + 5) (r >>= write_string t.start t.size) (xs ++ (varint (length ys) ++ ys))
  then_text t ys g h =
      let f = a.written.foreign g.block g.foreign in
      let held = a.written.kept g.block g.offset ys g.foreign g.holds in
      let one =
        write_string-prefixed a.written.inv g.block g.offset ys g.small
          (left _ (omega (arith, (length-varint (length ys)).1))) f held in
      Sent->>= (write_string t.start t.size) a (
        Sent-most {n = length (varint (length ys)) + 0} 5
          (omega (arith, (length-varint (length ys)).1)) (rw (g.start, g.size) one))

  -- `iov()` after the writes.
  pub then_frame : 0 < length xs → length xs < 2 ^ 31 → Framed i (r >>= finalize) xs
  then_frame some_bytes small =
      let total : length (a.sent_after ++ a.sector_after) ≡ length xs = ap length a.content in
      let parts = length-append a.sent_after a.sector_after in
      let f =
        finalize-Framed a.written.inv (omega (arith, total))
          (omega (arith, total, parts, Gathers-count a.written.inv.pieces)) in
      subst (λ bytes. Framed i (r >>= finalize) bytes) a.content
        (record {
          after = f.after;
          returns = rw (a.written.returns, f.returns) refl;
          sends = f.sends;
          reusable = f.reusable;
          kept = λ c o ys g h. f.kept c o ys (a.written.foreign c g) (a.written.kept c o ys g h);
          foreign = λ c g. f.foreign c (a.written.foreign c g);
        })
