-- ===== src/Wire/Packets.antt =====
-- Each packet that the server sends, as the protocol describes it.
use mosss.Common.{
  ℕ, ◌^◌, ◌≤◌, ◌<◌, ◌≡◌, arith, refl, sym, ap, subst, List, [], ◌∷◌, length, Bool, Result, ◌>>=◌,
  >>=_assoc, >>=_ok,
}
use mosss.ReadBuffer.{Uuid}
use mosss.WriteBuffer.{WriteBuffer, write_byte, write_string, write_varint, finalize}
use mosss.WriteBuffer.Invariant.{Inv, room}
use mosss.WriteBuffer.Frame.{Framed}
use mosss.Clientbound.{
  Text, status_response, pong_response, disconnect_login, encryption_request, login_success,
  set_compression, plugin_message_config, finish_config, write_flags, feature_flags,
}
use mosss.Clientbound.Fields.{Field}
use mosss.Wire.{
  Item, put_byte, put_boolean, put_number, put_long, put_uuid, put_text, write_item, write_items,
  flat,
}
use mosss.Wire.Items.{Stand, and_field, for_byte, costs, write_items-Framed}

pub data Packet : Type 0 where
  status : Text → Packet
  pong : ℕ → Packet
  refusal : Text → Packet
  encryption : Text → Text → Text → Bool → Packet
  success : Uuid → Text → Text → Packet
  compression : ℕ → Packet
  plugin_message : Text → Text → Packet
  configured : Packet
  features : List Text → Packet

-- The calls that write it.
abbrev pub write_packet : Packet → WriteBuffer → Result WriteBuffer
write_packet (status response) = status_response response
write_packet (pong timestamp) = pong_response timestamp
write_packet (refusal reason) = disconnect_login reason
write_packet (encryption server_id key token verify) = encryption_request server_id key token verify
write_packet (success uuid username property) = login_success uuid username property
write_packet (compression size) = set_compression size
write_packet (plugin_message channel payload) = plugin_message_config channel payload
write_packet configured = finish_config
write_packet (features flags) = feature_flags (length flags) flags

abbrev pub put_texts : List Text → List Item
put_texts [] = []
put_texts (flag ∷ flags) = put_text flag ∷ put_texts flags

-- Its id and its fields in the protocol.
abbrev pub layout : Packet → List Item
layout (status response) = put_byte 0x00 ∷ put_text response ∷ []
layout (pong timestamp) = put_byte 0x01 ∷ put_long timestamp ∷ []
layout (refusal reason) = put_byte 0x00 ∷ put_text reason ∷ []
layout (encryption server_id key token verify) =
    put_byte 0x01 ∷ put_text server_id ∷ put_text key ∷ put_text token ∷ put_boolean verify ∷ []
layout (success uuid username property) =
    put_byte 0x02 ∷ put_uuid uuid ∷ put_text username ∷ put_text property ∷ []
layout (compression size) = put_byte 0x03 ∷ put_number size ∷ []
layout (plugin_message channel payload) = put_byte 0x01 ∷ put_text channel ∷ put_text payload ∷ []
layout configured = put_byte 0x03 ∷ []
layout (features flags) = put_byte 0x0c ∷ put_number (length flags) ∷ put_texts flags

flags_lem : (flags : List Text) → write_flags flags ≡ write_items (put_texts flags)
unfolding write_flags write_items write_item
flags_lem [] = refl
flags_lem (flag ∷ flags) = ap (λ k w. write_string flag.start flag.size w >>= k) (flags_lem flags)

write_packet_lem : (p : Packet) (w : WriteBuffer) → write_packet p w ≡ write_items (layout p) w
unfolding write_items write_item status_response pong_response disconnect_login encryption_request
    login_success set_compression plugin_message_config finish_config
write_packet_lem (status response) w = simp >>=_ok
write_packet_lem (pong timestamp) w = simp >>=_ok
write_packet_lem (refusal reason) w = simp >>=_ok
write_packet_lem (encryption server_id key token verify) w = simp (>>=_assoc, >>=_ok)
write_packet_lem (success uuid username property) w = simp (>>=_assoc, >>=_ok)
write_packet_lem (compression size) w = simp >>=_ok
write_packet_lem (plugin_message channel payload) w = simp (>>=_assoc, >>=_ok)
write_packet_lem configured w = simp >>=_ok
write_packet_lem (features flags) w =
    unfold feature_flags in
    simp >>=_assoc
      (ap (λ k. write_byte 0x0c w >>= λ a. write_varint (length flags) a >>= k) (flags_lem flags))

starts :
    {w : WriteBuffer} {i : Inv w [] []} {x : ℕ} {items : List Item} (fields : List Field)
    → Stand i (put_byte x ∷ items) fields
    → 0 < length (flat fields)
starts [] s = elim s [ ]
starts (field ∷ fields) (and_field (for_byte y small) s) = omega arith

pub packet-starts :
    {w : WriteBuffer} {i : Inv w [] []} (p : Packet) (fields : List Field)
    → Stand i (layout p) fields
    → 0 < length (flat fields)
packet-starts (status response) fields s = starts fields s
packet-starts (pong timestamp) fields s = starts fields s
packet-starts (refusal reason) fields s = starts fields s
packet-starts (encryption server_id key token verify) fields s = starts fields s
packet-starts (success uuid username property) fields s = starts fields s
packet-starts (compression size) fields s = starts fields s
packet-starts (plugin_message channel payload) fields s = starts fields s
packet-starts configured fields s = starts fields s
packet-starts (features flags) fields s = starts fields s

-- Each of the nine packets, from an empty buffer with room for what is not a string, is framed by
-- `iov()` as the number of its bytes, and then its id and its fields in the order of the protocol.
pub write_packet-Framed :
    {w : WriteBuffer} (i : Inv w [] []) (p : Packet) (fields : List Field)
    → Stand i (layout p) fields
    → costs (layout p) ≤ room i
    → length (flat fields) < 2 ^ 31
    → Framed i (write_packet p w >>= finalize) (flat fields)
write_packet-Framed {w} i p fields s fits small =
    subst (λ r. Framed i (r >>= finalize) (flat fields)) (sym (write_packet_lem p w))
      (write_items-Framed i (layout p) fields s fits (packet-starts p fields s) small)
