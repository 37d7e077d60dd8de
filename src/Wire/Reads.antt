-- ===== src/Wire/Reads.antt =====
-- The reads give back the fields.
use mosss.Common.{
  ℕ, ◌^◌, ◌<◌, refl, subst, ◌∙◌, List, [], ◌∷◌, ◌++◌, length, append_assoc, arith, All, All-append,
  true, false,
}
use mosss.Memory.{Pointer}
use mosss.Bytes.Order.{IsByte, be_bytes, be_bytes-IsByte}
use mosss.Varint.{varint, varint-IsByte}
use mosss.ReadBuffer.{ReadBuffer, Uuid, read_bool, read_long}
use mosss.ReadBuffer.Stream.{AtSector, Reads, read_char-AtSector}
use mosss.ReadBuffer.Varints.{read_varint-varint}
use mosss.ReadBuffer.Numbers.{read_ulong-be_bytes, read_uuid-be_bytes}
use mosss.ReadBuffer.Strings.{read_string-prefixed}
use mosss.Clientbound.Fields.{Field, byte, boolean, number, long, uuid, text, field_bytes}
use mosss.Wire.{kind, kinds, flat, read_field, read_fields}

-- The value of a field is in its range; a number is not negative.
abbrev pub InRange : Field → Type 0
InRange (byte x) = x < 256
InRange (boolean b) = Unit
InRange (number x) = x < 2 ^ 31
InRange (long x) = x < 2 ^ 64
InRange (uuid most least) = (most < 2 ^ 64) × (least < 2 ^ 64)
InRange (text xs) = (length xs < 2 ^ 31) × All IsByte xs

field_bytes-IsByte : (field : Field) → InRange field → All IsByte (field_bytes field)
field_bytes-IsByte (byte x) h = (h, tt)
field_bytes-IsByte (boolean true) h = omega arith
field_bytes-IsByte (boolean false) h = omega arith
field_bytes-IsByte (number x) h = varint-IsByte x (omega arith)
field_bytes-IsByte (long x) h = be_bytes-IsByte 8 x
field_bytes-IsByte (uuid most least) h =
    All-append IsByte (be_bytes 8 most) _ (be_bytes-IsByte 8 most) (be_bytes-IsByte 8 least)
field_bytes-IsByte (text xs) h =
    All-append IsByte (varint (length xs)) xs (varint-IsByte (length xs) (omega arith)) h.1

pub flat-IsByte : (fields : List Field) → All InRange fields → All IsByte (flat fields)
flat-IsByte [] h = tt
flat-IsByte (field ∷ fields) h =
    All-append IsByte (field_bytes field) (flat fields) (field_bytes-IsByte field h.0)
      (flat-IsByte fields h.1)

read_field_lem :
    (i : ℕ) (stop : Pointer) (r : ReadBuffer) (field : Field) (rest : List ℕ)
    → InRange field
    → All IsByte rest
    → AtSector i stop r (field_bytes field ++ rest)
    → Reads (AtSector i stop) r (read_field (kind field) r) field rest
unfolding read_field
read_field_lem i stop r (byte x) rest h hr s =
    let c = read_char-AtSector i stop r x rest s in
    record { after = c.after; returns = rw c.returns refl; view = c.view; heap = c.heap }
read_field_lem i stop r (boolean true) rest h hr s =
    let c = read_char-AtSector i stop r 1 rest s in
    record {
      after = c.after;
      returns = unfold read_bool in rw c.returns refl;
      view = c.view;
      heap = c.heap;
    }
read_field_lem i stop r (boolean false) rest h hr s =
    let c = read_char-AtSector i stop r 0 rest s in
    record {
      after = c.after;
      returns = unfold read_bool in rw c.returns refl;
      view = c.view;
      heap = c.heap;
    }
read_field_lem i stop r (number x) rest h hr s =
    let c =
      read_varint-varint (AtSector i stop) (read_char-AtSector i stop) r x rest (omega arith) hr
        s in
    record { after = c.after; returns = rw c.returns refl; view = c.view; heap = c.heap }
read_field_lem i stop r (long x) rest h hr s =
    let c = read_ulong-be_bytes i stop r x rest h s in
    record {
      after = c.after;
      returns = unfold read_long in rw c.returns refl;
      view = c.view;
      heap = c.heap;
    }
read_field_lem i stop r (uuid most least) rest h hr s =
    let s1 = subst (AtSector i stop r) (append_assoc (be_bytes 8 most) (be_bytes 8 least) rest) s in
    let u : Uuid = record { most = most; least = least } in
    let c = read_uuid-be_bytes i stop r u rest h.0 h.1 s1 in
    record { after = c.after; returns = rw c.returns refl; view = c.view; heap = c.heap }
read_field_lem i stop r (text xs) rest h hr s =
    let c = read_string-prefixed i stop r xs rest h.0 h.1 hr s in
    record { after = c.after; returns = rw c.returns refl; view = c.view; heap = c.heap }

-- Fields whose bytes lie in the sector at the cursor, whatever they are, are read as they are.
pub read_fields-flat :
    (i : ℕ) (stop : Pointer) (r : ReadBuffer) (fields : List Field) (rest : List ℕ)
    → All InRange fields
    → All IsByte rest
    → AtSector i stop r (flat fields ++ rest)
    → Reads (AtSector i stop) r (read_fields (kinds fields) r) fields rest
unfolding read_fields
read_fields-flat i stop r [] rest h hr s = record {
  after = r;
  returns = refl;
  view = s;
  heap = refl;
}
read_fields-flat i stop r (field ∷ fields) rest h hr s =
    let s1 = subst (AtSector i stop r) (append_assoc (field_bytes field) (flat fields) rest) s in
    let others = All-append IsByte (flat fields) rest (flat-IsByte fields h.1) hr in
    let one = read_field_lem i stop r field (flat fields ++ rest) h.0 others s1 in
    let more = read_fields-flat i stop one.after fields rest h.1 hr one.view in
    record {
      after = more.after;
      returns = rw (one.returns, more.returns) refl;
      view = more.view;
      heap = more.heap ∙ one.heap;
    }
