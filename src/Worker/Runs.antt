-- ===== src/Worker/Runs.antt =====
-- Sessions at hand: the theorems on the worker at concrete packets.
use mosss.Common.{ℕ, ◌≡◌, refl, List, [], ◌∷◌, true, false, Option, none, some, Result, ok, err}
use mosss.Memory.{
  at, null, load, store, store_bytes, load_bytes, set_cell, update, in_range, retreat, distance,
  delete,
}
use mosss.Bytes.{bswap, from_le, le_bytes}
use mosss.ReadBuffer.{
  ReadBuffer, skip, sector_remaining, total_packet_length, feed, next_cursor, read_char, put_group,
  read_varint_last, read_varint_loop, read_varint, reached, take_length_char, read_length_last,
  read_length_loop, read_length, read_across_buffers, read_unsigned, read_ushort, read_string,
}
use mosss.WriteBuffer.{WriteBuffer}
use mosss.Connection.{
  take_in, resolve_length, process, ready, reset, ◌-ℤ◌, State, pos, Recv, received,
  resolve_length_handler, handshake_state,
}
use mosss.Worker.Session.{Io, Session, set_state}
use mosss.Worker.Handlers.{handshake, login_acknowledged}
use mosss.Worker.Tables.{handshaking, login, parsers, parser_at, dispatch, call_parser}
use mosss.Worker.Events.{on_event, parse}
use mosss.Worker.Moves.{Moves, on_event-Moves}
use mosss.Worker.History.{begun, event, Earned, Run-Earned}
use mosss.Worker.Dispatch.{specified, answer, dispatch_lem}
use mosss.WriteBuffer.{Iovec}
use mosss.Connection.{status_state}

abbrev empty_buffer : ReadBuffer
empty_buffer = record {
  heap = record { next = 1; block = λ b. record { size = 1024; alive = true; cells = λ o. none } };
  iv0 = record { buf = at 0 0; end = at 0 0 };
  iv1 = record { buf = null; end = null };
  cursor_index = 0;
  pos = 0;
  packet_length = 0;
  sizeof_length = 0;
}

abbrev no_answers : WriteBuffer
no_answers = mosss.WriteBuffer.construct empty_buffer.heap 64

abbrev new_session : Session
new_session = record {
  conn = record {
    primary = at 0 0;
    at_secondary = false;
    bytes_allowed = pos 1024;
    process_events = resolve_length_handler;
    rbuf = empty_buffer;
    state = handshake_state;
  };
  wbuf = no_answers;
  handle = none;
}

abbrev silent : Io
silent k = []

abbrev session_after : Result (Option (List ℕ × Session)) → Session
session_after (ok (some a)) = a.1
session_after (ok none) = new_session
session_after (err e) = new_session

-- `handshake` with the next state 2, and then `login_acknowledged`.
abbrev hello : Recv
hello = received (7 ∷ 0 ∷ 4 ∷ 1 ∷ 97 ∷ 0 ∷ 1 ∷ 2 ∷ [])

abbrev acknowledgement : Recv
acknowledgement = received (1 ∷ 3 ∷ [])

abbrev greeted : Session
greeted = session_after (on_event silent hello new_session)

greeted_lem : (x : List ℕ) × (on_event silent hello new_session ≡ ok (some (x, greeted)))
unfolding skip sector_remaining total_packet_length feed next_cursor read_char put_group
    read_varint_last read_varint_loop read_varint reached take_length_char read_length_last
    read_length_loop read_length read_across_buffers read_unsigned read_ushort read_string load
    store store_bytes load_bytes set_cell update in_range retreat distance delete take_in
    resolve_length process ready reset ◌-ℤ◌ handshake set_state login_acknowledged handshaking login
    parsers parser_at dispatch call_parser on_event parse bswap from_le le_bytes
greeted_lem = ([], refl)

abbrev acknowledged_session : Session
acknowledged_session = session_after (on_event silent acknowledgement greeted)

acknowledged_lem : on_event silent acknowledgement greeted ≡ ok (some ([], acknowledged_session))
unfolding skip sector_remaining total_packet_length feed next_cursor read_char put_group
    read_varint_last read_varint_loop read_varint reached take_length_char read_length_last
    read_length_loop read_length read_across_buffers read_unsigned read_ushort read_string load
    store store_bytes load_bytes set_cell update in_range retreat distance delete take_in
    resolve_length process ready reset ◌-ℤ◌ handshake set_state login_acknowledged handshaking login
    parsers parser_at dispatch call_parser on_event parse bswap from_le le_bytes
acknowledged_lem = refl

on_event-Moves_example : Moves hello new_session greeted.conn.state
on_event-Moves_example = on_event-Moves silent hello new_session greeted_lem.0 greeted greeted_lem.1

Run-Earned_example :
    Earned acknowledged_session.conn.state
      (acknowledged_session.conn.state ∷ greeted.conn.state ∷ handshake_state ∷ [])
Run-Earned_example = Run-Earned acknowledged_session refl (
    event silent acknowledgement [] acknowledged_session
      (event silent hello greeted_lem.0 greeted begun greeted_lem.1) acknowledged_lem)

abbrev in_state : State → Session
in_state state = record new_session { conn = record new_session.conn { state = state } }

dispatch_lem_example :
    dispatch 2 silent (in_state status_state)
    ≡ answer (specified status_state 2) silent (in_state status_state)
dispatch_lem_example = dispatch_lem 2 silent (in_state status_state)
