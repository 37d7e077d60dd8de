-- ===== src/Wire.antt =====
-- A packet at both ends: the reads of network/readbuffer.cpp in the order of its fields, and the
-- writes of network/writebuffer.cpp. The fields are those of Clientbound/Fields.
pub mod Reads
pub mod Items
pub mod Packets
pub mod Trip
pub mod Runs
use mosss.Common.{ℕ, List, [], ◌∷◌, ◌++◌, Result, ok, ◌>>=◌}
use mosss.ReadBuffer.{
  ReadBuffer, Uuid, read_char, read_bool, read_varint, read_long, read_uuid, read_string,
}
use mosss.WriteBuffer.{
  WriteBuffer, write_byte, write_bool, write_long, write_uuid, write_string, write_varint,
}
use mosss.Clientbound.{Text}
use mosss.Clientbound.Fields.{Field, byte, boolean, number, long, uuid, text, field_bytes}
use mosss.Common.{Bool}

-- Which read a field takes.
pub data Kind : Type 0 where
  a_byte a_boolean a_number a_long a_uuid a_text : Kind

abbrev pub kind : Field → Kind
kind (byte x) = a_byte
kind (boolean b) = a_boolean
kind (number x) = a_number
kind (long x) = a_long
kind (uuid most least) = a_uuid
kind (text xs) = a_text

abbrev pub kinds : List Field → List Kind
kinds [] = []
kinds (field ∷ fields) = kind field ∷ kinds fields

-- The bytes of the fields, one after the other.
abbrev pub flat : List Field → List ℕ
flat [] = []
flat (field ∷ fields) = field_bytes field ++ flat fields

unfoldable pub read_field : Kind → ReadBuffer → Result (Field × ReadBuffer)
read_field a_byte r = do (x, r1) ← read_char r; ok (byte x, r1)
read_field a_boolean r = do (b, r1) ← read_bool r; ok (boolean b, r1)
read_field a_number r = do (x, r1) ← read_varint r; ok (number x, r1)
read_field a_long r = do (x, r1) ← read_long r; ok (long x, r1)
read_field a_uuid r = do (u, r1) ← read_uuid r; ok (uuid u.most u.least, r1)
read_field a_text r = do (xs, r1) ← read_string r; ok (text xs, r1)

unfoldable pub read_fields : List Kind → ReadBuffer → Result (List Field × ReadBuffer)
read_fields [] r = ok ([], r)
read_fields (k ∷ ks) r = do
  (field, r1) ← read_field k r
  (fields, r2) ← read_fields ks r1
  ok (field ∷ fields, r2)

-- A field that the server writes; the characters of a string are in memory.
pub data Item : Type 0 where
  put_byte : ℕ → Item
  put_boolean : Bool → Item
  put_number : ℕ → Item
  put_long : ℕ → Item
  put_uuid : Uuid → Item
  put_text : Text → Item

unfoldable pub write_item : Item → WriteBuffer → Result WriteBuffer
write_item (put_byte x) = write_byte x
write_item (put_boolean b) = write_bool b
write_item (put_number x) = write_varint x
write_item (put_long x) = write_long x
write_item (put_uuid u) = write_uuid u
write_item (put_text t) = write_string t.start t.size

unfoldable pub write_items : List Item → WriteBuffer → Result WriteBuffer
write_items [] w = ok w
write_items (item ∷ items) w = write_item item w >>= write_items items
