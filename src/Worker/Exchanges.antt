-- ===== src/Worker/Exchanges.antt =====
-- Packets at hand and the packets that answer them.
use mosss.Common.{ℕ, refl, arith, List, [], ◌∷◌, true, false, none, some}
use mosss.Memory.{at, null}
use mosss.Bytes.{le_bytes}
use mosss.WriteBuffer.{WriteBuffer}
use mosss.Connection.{State, pos}
use mosss.Worker.Session.{Io, Session}
use mosss.Worker.Ping.{Idle}
use mosss.Worker.Parsed.{Served}
use mosss.Worker.Socket.{serve, serve-ping}
use mosss.Connection.Receive.{Fresh}
use mosss.Connection.{resolve_length_handler}
use mosss.ReadBuffer.{Uuid}
use mosss.WriteBuffer.{Iovec}
use mosss.WriteBuffer.Invariant.{Inv, nothing}
use mosss.Memory.{Memory}
use mosss.Bytes.Order.{be_bytes}
use mosss.Connection.{status_state, copy_to_buffer_handler}
use mosss.Common.{inl, get_elem?, length}

-- A heap with the bytes `xs` of a packet, and the buffer for the answers.
abbrev heap_with : List ℕ → Memory
heap_with xs = record {
  next = 2;
  block = λ b. record { size = 1024; alive = true; cells = λ o. get_elem? xs o };
}

abbrev stale : Iovec
stale = record { iov_base = at 1 5; iov_len = 3 }

abbrev answers : WriteBuffer
answers = record {
  heap = heap_with [];
  iov_size = 8;
  iov = λ i. some stale;
  iov_cursor = 0;
  packet_length = 0;
  buf = at 1 0;
  end = at 1 1024;
  sector_start = at 1 5;
  cursor = at 1 5;
}

abbrev sent_with : State → List ℕ → Session
sent_with state xs = record {
  conn = record {
    primary = at 0 0;
    at_secondary = false;
    bytes_allowed = pos 0;
    process_events = copy_to_buffer_handler;
    rbuf = record {
      heap = heap_with xs;
      iv0 = record { buf = at 0 0; end = at 0 (length xs) };
      iv1 = record { buf = null; end = null };
      cursor_index = 0;
      pos = 0;
      packet_length = length xs;
      sizeof_length = 1;
    };
    state = state;
  };
  wbuf = answers;
  handle = none;
}

abbrev answers-Inv : (xs : List ℕ) → Inv (record answers { heap = heap_with xs }) [] []
answers-Inv xs = record {
  layout = record {
    block = 1;
    capacity = 1024;
    start = 5;
    position = 5;
    buf = refl;
    end = refl;
    sector_start = refl;
    cursor = refl;
    header = omega arith;
    ordered = omega arith;
    fits = omega arith;
    small = omega arith;
    alive = refl;
    size = refl;
    known = omega arith;
  };
  holds = tt;
  position = refl;
  pieces = nothing;
  cursor_le = omega arith;
  packet_length = refl;
  first = inl (refl, refl);
}

-- A kernel that takes `n` bytes at the first call.
abbrev pub takes : ℕ → Io
takes n k = some n ∷ []

-- A session that waits for a packet.
abbrev pub waits_with : State → Session
waits_with state =
    let s = sent_with state [] in
    let c = s.conn in
    record s {
      conn = record c {
        bytes_allowed = pos 1024;
        process_events = resolve_length_handler;
        rbuf = record c.rbuf { sizeof_length = 0 };
      };
    }

pub waits_with-Fresh : (state : State) → Fresh (waits_with state).conn 0
waits_with-Fresh state = record {
  primary = refl;
  first = refl;
  allowed = refl;
  events = refl;
  buf = refl;
  end = refl;
  position = refl;
  packet_length = refl;
  sizeof_length = refl;
  room = record { alive = refl; fits = omega arith };
}

abbrev answers-Idle : (xs : List ℕ) → Idle (heap_with xs) answers 9
answers-Idle xs = record {
  inv = answers-Inv xs;
  free_le = omega arith;
  cursor = refl;
  slots = omega arith;
  stale = stale;
  listed = refl;
  long = omega arith;
}

-- The ping in three events.
serve-ping_example :
    Served
      (serve
        (takes 10)
        ((9 ∷ []) ∷ (1 ∷ 0 ∷ 0 ∷ []) ∷ (0 ∷ 0 ∷ 0 ∷ 0 ∷ 1 ∷ 2 ∷ []) ∷ [])
        (waits_with status_state))
      (9 ∷ 1 ∷ be_bytes 8 258)
unfolding le_bytes
serve-ping_example =
    serve-ping ((9 ∷ []) ∷ (1 ∷ 0 ∷ 0 ∷ []) ∷ (0 ∷ 0 ∷ 0 ∷ 0 ∷ 1 ∷ 2 ∷ []) ∷ [])
      (waits_with status_state) 0 (takes 10) 258 [] (answers-Idle [])
      (waits_with-Fresh status_state) refl refl refl (omega arith) (omega arith) refl
      (omega arith, (omega arith, (omega arith, tt))) refl

abbrev introduction : List ℕ
introduction = 1 ∷ 97 ∷ 0 ∷ 0 ∷ 0 ∷ 0 ∷ 0 ∷ 0 ∷ 0 ∷ 5 ∷ 0 ∷ 0 ∷ 0 ∷ 0 ∷ 0 ∷ 0 ∷ 0 ∷ 7 ∷ []

abbrev user_id : Uuid
user_id = record { most = 5; least = 7 }

-- A kernel that takes five bytes, and then sixteen.
abbrev takes_twice : Io
takes_twice k = some 5 ∷ some 16 ∷ []
