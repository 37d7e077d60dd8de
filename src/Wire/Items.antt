-- ===== src/Wire/Items.antt =====
-- The writes of a packet, whatever its fields are, and `iov()`.
use mosss.Common.{
  ℕ, ◌+◌, ◌^◌, ◌≤◌, ◌<◌, refl, sym, subst, List, [], ◌∷◌, ◌++◌, length, append-nil, append_assoc,
  arith, Bool, Result, ok, ◌>>=◌, >>=_assoc, >>=_ok,
}
use mosss.ReadBuffer.{Uuid}
use mosss.WriteBuffer.{WriteBuffer, finalize}
use mosss.WriteBuffer.Invariant.{Inv, room}
use mosss.WriteBuffer.Pieces.{Sent}
use mosss.WriteBuffer.Frame.{Framed}
use mosss.Clientbound.{Text}
use mosss.Clientbound.Fields.{
  Field, byte, boolean, number, long, uuid, text, field_bytes, Given, Sent-most, then_byte,
  then_long, then_bool, then_uuid, then_varint, then_text, then_frame,
}
use mosss.Wire.{
  Item, put_byte, put_boolean, put_number, put_long, put_uuid, put_text, write_item, write_items,
  flat,
}

-- The bytes of room that a field takes at most; the characters of a string stay where they are.
abbrev pub cost : Item → ℕ
cost (put_byte x) = 1
cost (put_boolean b) = 1
cost (put_number x) = 5
cost (put_long x) = 8
cost (put_uuid u) = 16
cost (put_text t) = 5

abbrev pub costs : List Item → ℕ
costs [] = 0
costs (item ∷ items) = cost item + costs items

-- The server writes `field` by `item`.
pub data Stands {w : WriteBuffer} (i : Inv w [] []) : Item → Field → Type 0 where
  for_byte : (x : ℕ) → x < 256 → Stands i (put_byte x) (byte x)
  for_boolean : (b : Bool) → Stands i (put_boolean b) (boolean b)
  for_number : (x : ℕ) → x < 2 ^ 31 → Stands i (put_number x) (number x)
  for_long : (x : ℕ) → Stands i (put_long x) (long x)
  for_uuid : (u : Uuid) → Stands i (put_uuid u) (uuid u.most u.least)
  for_text : (t : Text) (xs : List ℕ) → Given i t xs → Stands i (put_text t) (text xs)

pub data Stand {w : WriteBuffer} (i : Inv w [] []) : List Item → List Field → Type 0 where
  no_fields : Stand i [] []
  and_field :
      {item : Item} {items : List Item} {field : Field} {fields : List Field}
      → Stands i item field
      → Stand i items fields
      → Stand i (item ∷ items) (field ∷ fields)

Sent-nothing : {w : WriteBuffer} (i : Inv w [] []) → Sent i 0 (ok w) []
Sent-nothing {w} i = record {
  sent_after = [];
  sector_after = [];
  content = refl;
  written = record {
    after = w;
    returns = refl;
    inv = i;
    foreign = λ c f. f;
    kept = λ c o xs f h. h;
    room_left = omega arith;
    growth = omega arith;
  };
}

then_item :
    {w : WriteBuffer} {i : Inv w [] []} {n : ℕ} {r : Result WriteBuffer} {xs : List ℕ}
    (a : Sent i n r xs) (item : Item) (field : Field)
    → Stands i item field
    → n + cost item ≤ room i
    → Sent i (n + cost item) (r >>= write_item item) (xs ++ field_bytes field)
unfolding write_item
then_item a (put_byte x) f (for_byte y small) h = then_byte a x small h
then_item a (put_boolean b) f (for_boolean c) h = then_bool a b h
then_item a (put_number x) f (for_number y small) h = then_varint a x small h
then_item a (put_long x) f (for_long y) h = then_long a x h
then_item a (put_uuid u) f (for_uuid v) h = then_uuid a u h
then_item a (put_text t) f (for_text s xs g) h = then_text a t xs g h

then_items :
    {w : WriteBuffer} {i : Inv w [] []} (items : List Item) (fields : List Field)
    → Stand i items fields
    → (n : ℕ) (r : Result WriteBuffer) (xs : List ℕ) → Sent i n r xs
    → n + costs items ≤ room i
    → Sent i (n + costs items) (r >>= write_items items) (xs ++ flat fields)
unfolding write_items
then_items {i = i} [] [] no_fields n r xs a h = Sent-most {n = n} (n + 0) (omega arith) (
    subst (Sent i n (r >>= λ w. ok w)) (sym (append-nil xs))
      (subst (λ q. Sent i n q xs) (sym (>>=_ok r)) a))
then_items [] (field ∷ fields) s n r xs a h = elim s [ ]
then_items (item ∷ items) [] s n r xs a h = elim s [ ]
then_items {i = i} (item ∷ items) (field ∷ fields) (and_field s ss) n r xs a h =
    let one = then_item a item field s (omega arith) in
    let rest =
      then_items items fields ss (n + cost item) (r >>= write_item item) (xs ++ field_bytes field)
        one (omega arith) in
    Sent-most {n = n + cost item + costs items} (n + costs (item ∷ items)) (omega arith) (
      subst (λ q. Sent i (n + cost item + costs items) q (xs ++ flat (field ∷ fields)))
        (>>=_assoc r (write_item item) (write_items items))
        (subst (Sent i (n + cost item + costs items) (r >>= write_item item >>= write_items items))
          (append_assoc xs (field_bytes field) (flat fields)) rest))

-- From an empty buffer with room for what is not a string, the writes of any fields are framed by
-- `iov()` as the number of their bytes and then the fields, in this order.
pub write_items-Framed :
    {w : WriteBuffer} (i : Inv w [] []) (items : List Item) (fields : List Field)
    → Stand i items fields
    → costs items ≤ room i
    → 0 < length (flat fields)
    → length (flat fields) < 2 ^ 31
    → Framed i (write_items items w >>= finalize) (flat fields)
write_items-Framed {w} i items fields s h some_bytes small =
    let all = then_items items fields s 0 (ok w) [] (Sent-nothing i) (omega arith) in
    then_frame all some_bytes small
