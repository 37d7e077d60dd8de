-- ===== src/Connection/Runs.antt =====
-- An event at hand: a new connection receives the start of a packet.
use mosss.Common.{
  ℕ, zero, suc, ◌≡◌, List, length, get_elem?, ok, err, undefined, some, ◌>>=◌, refl, arith, [], ◌∷◌,
  true, false, none,
}
use mosss.Memory.{at, null, load, in_range}
use mosss.Varint.{decode}
use mosss.ReadBuffer.{ReadBuffer, total_packet_length}
use mosss.Connection.{
  Connection, pos, negsuc, received, process, reset, copy_to_buffer_handler,
  transition_to_secondary_handler, resolve_length_handler, handshake_state,
}
use mosss.Connection.Overflow.{transition-overflow}
use mosss.Connection.Split.{Collected, process_all, process_all-Collected}
use mosss.Connection.Surplus.{Surplus, Skipped, reset-overflow}
use mosss.Connection.Receive.{Fresh, LengthKnown, resolve_length-known}

abbrev pub empty_buffer : ReadBuffer
empty_buffer = record {
  heap = record { next = 1; block = λ b. record { size = 1024; alive = true; cells = λ o. none } };
  iv0 = record { buf = at 0 0; end = at 0 0 };
  iv1 = record { buf = at 0 0; end = at 0 0 };
  cursor_index = 0;
  pos = 0;
  packet_length = 0;
  sizeof_length = 0;
}

abbrev pub new_connection : Connection
new_connection = record {
  primary = at 0 0;
  at_secondary = false;
  bytes_allowed = pos 1024;
  process_events = resolve_length_handler;
  rbuf = empty_buffer;
  state = handshake_state;
}

pub new_connection-Fresh : Fresh new_connection 0
new_connection-Fresh = record {
  primary = refl;
  first = refl;
  allowed = refl;
  events = refl;
  buf = refl;
  end = refl;
  position = refl;
  packet_length = refl;
  sizeof_length = refl;
  room = record { alive = refl; fits = omega arith };
}

-- Two bytes of a packet of five.
resolve_length-known_example : LengthKnown new_connection (5 ∷ 0 ∷ []) (0 ∷ []) 5
unfolding decode
resolve_length-known_example =
    resolve_length-known new_connection 0 (5 ∷ 0 ∷ []) (0 ∷ []) 5 new_connection-Fresh (omega arith)
      refl (omega arith) (omega arith) (omega arith)

-- The same packet, in three events.
process_all-Collected_example :
    Collected
      (process_all ((5 ∷ 0 ∷ []) ∷ (1 ∷ []) ∷ (2 ∷ 3 ∷ 4 ∷ []) ∷ []) new_connection)
      new_connection
      (0 ∷ 1 ∷ 2 ∷ 3 ∷ 4 ∷ [])
      0
unfolding decode
process_all-Collected_example =
    process_all-Collected new_connection 0 (5 ∷ 0 ∷ []) (0 ∷ []) 5
      ((1 ∷ []) ∷ (2 ∷ 3 ∷ 4 ∷ []) ∷ []) new_connection-Fresh (omega arith) refl (omega arith)
      (omega arith) (omega arith)

-- A packet of five bytes with the first two of the next one behind it.
abbrev surplus_buffer : ReadBuffer
surplus_buffer = record {
  heap = record {
    next = 1;
    block = λ b. record {
      size = 1024;
      alive = true;
      cells = λ o. get_elem? (4 ∷ 0 ∷ 0 ∷ 0 ∷ 0 ∷ 8 ∷ 9 ∷ []) o;
    };
  };
  iv0 = record { buf = at 0 5; end = at 0 7 };
  iv1 = record { buf = null; end = null };
  cursor_index = 0;
  pos = 7;
  packet_length = 4;
  sizeof_length = 1;
}

abbrev surplus_connection : Connection
surplus_connection = record {
  primary = at 0 0;
  at_secondary = false;
  bytes_allowed = negsuc 1;
  process_events = copy_to_buffer_handler;
  rbuf = surplus_buffer;
  state = handshake_state;
}

surplus_connection-Surplus : Surplus surplus_connection 0 5 (8 ∷ 9 ∷ [])
unfolding total_packet_length load in_range
surplus_connection-Surplus = record {
  primary = refl;
  no_secondary = refl;
  total_is = refl;
  surplus = (1, refl, refl);
  inside = omega arith;
  room = record { alive = refl; fits = omega arith };
  size = refl;
  holds = (refl, (refl, tt));
}

abbrev zeros : ℕ → List ℕ
zeros zero = []
zeros (suc n) = 0 ∷ zeros n

length-zeros : (n : ℕ) → length (zeros n) ≡ n
length-zeros zero = refl
length-zeros (suc n) = omega (arith, length-zeros n)

reset-overflow_example :
    Skipped surplus_connection 0 (8 ∷ 9 ∷ [])
    × ((reset surplus_connection >>= process (received (zeros 1023))) ≡ err undefined)
reset-overflow_example =
    reset-overflow surplus_connection 0 5 (8 ∷ 9 ∷ []) (zeros 1023) surplus_connection-Surplus
      (omega (arith, length-zeros 1023)) (omega (arith, length-zeros 1023))

-- A packet that does not fit: 4 bytes were received, and 1020 are allowed.
abbrev large_connection : Connection
large_connection = record {
  primary = at 0 0;
  at_secondary = false;
  bytes_allowed = pos 1020;
  process_events = transition_to_secondary_handler;
  rbuf = record surplus_buffer { iv0 = record { buf = at 0 2; end = at 0 4 } };
  state = handshake_state;
}

transition-overflow_example :
    (after : Connection) × (process (received (1 ∷ 2 ∷ [])) large_connection ≡ ok (some after))
    × (after.bytes_allowed ≡ pos 1020)
    × (process (received (zeros 1020)) after ≡ err undefined)
transition-overflow_example =
    transition-overflow large_connection 0 4 1020 (1 ∷ 2 ∷ []) (zeros 1020)
      (record {
        first = refl;
        end = refl;
        inside = omega arith;
        room = record { alive = refl; fits = omega arith };
        size = refl;
      })
      refl refl (omega arith) (omega arith) (omega arith) (length-zeros 1020)
