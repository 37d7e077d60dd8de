-- ===== src/Wire/Runs.antt =====
-- A packet at hand, and the connection that receives it in three events.
use mosss.Common.{ℕ, refl, arith, List, [], ◌∷◌, true, false, none, get_elem?, inl, ◌>>=◌}
use mosss.Memory.{Memory, at, null, load, in_range}
use mosss.Varint.{varint, encoding}
use mosss.WriteBuffer.{WriteBuffer, finalize}
use mosss.WriteBuffer.Invariant.{Inv, nothing}
use mosss.Connection.{Connection, pos, resolve_length_handler, handshake_state}
use mosss.Connection.Receive.{Fresh}
use mosss.Clientbound.{Text}
use mosss.Clientbound.Fields.{Given, Field, byte, text}
use mosss.Wire.Items.{Stand, no_fields, and_field, for_byte, for_text}
use mosss.Wire.Packets.{Packet, plugin_message, layout, write_packet, write_packet-Framed}
use mosss.Wire.Trip.{Trip, write_packet-Trip}
use mosss.WriteBuffer.Frame.{Framed}
use mosss.Wire.{flat}

-- Block 2 holds the string of the caller.
abbrev sending_heap : Memory
sending_heap = record {
  next = 3;
  block = λ b. record { size = 1024; alive = true; cells = λ o. get_elem? (104 ∷ 105 ∷ []) o };
}

abbrev writer : WriteBuffer
writer = record {
  heap = sending_heap;
  iov_size = 4;
  iov = λ i. none;
  iov_cursor = 0;
  packet_length = 0;
  buf = at 1 0;
  end = at 1 1024;
  sector_start = at 1 5;
  cursor = at 1 5;
}

abbrev writer-Inv : Inv writer [] []
writer-Inv = record {
  layout = record {
    block = 1;
    capacity = 1024;
    start = 5;
    position = 5;
    buf = refl;
    end = refl;
    sector_start = refl;
    cursor = refl;
    header = omega arith;
    ordered = omega arith;
    fits = omega arith;
    small = omega arith;
    alive = refl;
    size = refl;
    known = omega arith;
  };
  holds = tt;
  position = refl;
  pieces = nothing;
  cursor_le = omega arith;
  packet_length = refl;
  first = inl (refl, refl);
}

abbrev greeting : Text
greeting = record { start = at 2 0; size = 2 }

abbrev message : Packet
message = plugin_message greeting greeting

abbrev fields : List Field
fields = byte 1 ∷ text (104 ∷ 105 ∷ []) ∷ text (104 ∷ 105 ∷ []) ∷ []

greeting-Given : Given writer-Inv greeting (104 ∷ 105 ∷ [])
unfolding load in_range
greeting-Given = record {
  block = 2;
  offset = 0;
  start = refl;
  size = refl;
  small = omega arith;
  foreign = record { apart = λ e. absurd (omega arith); known = omega arith };
  holds = (refl, (refl, tt));
}

message-Stand : Stand writer-Inv (layout message) fields
message-Stand = and_field (for_byte 1 (omega arith)) (
    and_field (for_text greeting (104 ∷ 105 ∷ []) greeting-Given)
      (and_field (for_text greeting (104 ∷ 105 ∷ []) greeting-Given) no_fields))

write_packet-Framed_example :
    Framed writer-Inv (write_packet message writer >>= finalize) (flat fields)
unfolding varint encoding
write_packet-Framed_example =
    write_packet-Framed writer-Inv message fields message-Stand (omega arith) (omega arith)

abbrev client : Connection
client = record {
  primary = at 0 0;
  at_secondary = false;
  bytes_allowed = pos 1024;
  process_events = resolve_length_handler;
  rbuf = record {
    heap = record {
      next = 1;
      block = λ b. record { size = 1024; alive = true; cells = λ o. none };
    };
    iv0 = record { buf = at 0 0; end = at 0 0 };
    iv1 = record { buf = null; end = null };
    cursor_index = 0;
    pos = 0;
    packet_length = 0;
    sizeof_length = 0;
  };
  state = handshake_state;
}

client-Fresh : Fresh client 0
client-Fresh = record {
  primary = refl;
  first = refl;
  allowed = refl;
  events = refl;
  buf = refl;
  end = refl;
  position = refl;
  packet_length = refl;
  sizeof_length = refl;
  room = record { alive = refl; fits = omega arith };
}

abbrev rest : List (List ℕ)
rest = (104 ∷ []) ∷ (105 ∷ 2 ∷ 104 ∷ 105 ∷ []) ∷ []

write_packet-Trip_example :
    Trip (write_packet message writer >>= finalize) ((7 ∷ 1 ∷ 2 ∷ []) ∷ rest) client fields
unfolding varint encoding
write_packet-Trip_example =
    write_packet-Trip writer-Inv message fields client 0 (1 ∷ 2 ∷ []) rest message-Stand
      (
        omega arith,
        (
          (omega arith, (omega arith, (omega arith, tt))),
          ((omega arith, (omega arith, (omega arith, tt))), tt),
        ),
      )
      (omega arith) (omega arith) client-Fresh refl refl
