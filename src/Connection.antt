-- ===== src/Connection.antt =====
-- network/connection.cpp and headers/network/connection.hpp, the receiving side: the three handlers
-- of an event, `reset` and `ready`. (The sending side is Clientbound.) A handler is given what the
-- call of `recv` does, and returns `none` when it has deleted the connection. `write_cursor` points
-- at the end of the primary or of the secondary part of `rbuf`. `primary` is a block of its own.
pub mod Receive
pub mod Keeps
pub mod Overflow
pub mod Surplus
pub mod Partial
pub mod Split
pub mod Large
pub mod Second
pub mod Whole
pub mod Freed
pub mod Runs
use mosss.Common.{
  ℕ, zero, suc, ◌+◌, ◌-◌, ◌*◌, ◌%◌, ◌^◌, List, [], ◌∷◌, Bool, true, false, ◌&&◌, ltb, leb, ◌==◌,
  if◌then◌else◌, Result, ok, err, undefined, ◌>>=◌, Option, none, some, length,
}
use mosss.Memory.{
  Pointer, null, at, Memory, advance, retreat, distance, store_bytes, copy_bytes, allocate,
}
use mosss.ReadBuffer.{
  Ivec, ReadBuffer, minus_one, total_packet_length, feed, make_secondary, read_length,
}

-- A `long`: `negsuc n` is -(n + 1).
pub data ℤ : Type 0 where
  pos : ℕ → ℤ
  negsuc : ℕ → ℤ

abbrev pub sub_ℕ : ℕ → ℕ → ℤ
sub_ℕ a b = if leb b a then pos (a - b) else negsuc (b - a - 1)

infixl 65 ◌-ℤ◌
-- a - b for a number `b`.
unfoldable pub ◌-ℤ◌ : ℤ → ℕ → ℤ
pos a -ℤ b = sub_ℕ a b
negsuc a -ℤ b = negsuc (a + b)

-- a <= b and 0 < a.
abbrev pub leb_ℤ : ℤ → ℕ → Bool
leb_ℤ (pos a) b = leb a b
leb_ℤ (negsuc a) b = true

-- The value of an `int` pattern.
abbrev pub signed_32 : ℕ → ℤ
signed_32 x = if ltb x (2 ^ 31) then pos x else negsuc (2 ^ 32 - x - 1)

abbrev pub primary_buffer_size : ℕ
primary_buffer_size = 1024

pub data State : Type 0 where
  handshake_state : State
  status_state : State
  login_state : State
  config_state : State
  play_state : State

-- The value of `process_events`.
pub data Handler : Type 0 where
  resolve_length_handler : Handler
  transition_to_secondary_handler : Handler
  copy_to_buffer_handler : Handler

pub record Connection : Type 0 where
  pub primary : Pointer
  pub at_secondary : Bool
  pub bytes_allowed : ℤ
  pub process_events : Handler
  pub rbuf : ReadBuffer
  pub state : State

-- What `recv` does: -1, 0, or bytes that it has for the caller.
pub data Recv : Type 0 where
  failed : Recv
  closed : Recv
  received : List ℕ → Recv

unfoldable pub construct : Memory → Result Connection
construct m = do
  let primary = at m.next 0
  rbuf ← feed (mosss.ReadBuffer.construct (allocate m primary_buffer_size)) primary
  ok (record {
    primary = primary;
    at_secondary = false;
    bytes_allowed = pos primary_buffer_size;
    process_events = resolve_length_handler;
    rbuf = rbuf;
    state = handshake_state;
  })

-- `*conn->write_cursor`.
abbrev pub write_position : Connection → Pointer
write_position c = if c.at_secondary then c.rbuf.iv1.end else c.rbuf.iv0.end

-- `recv` stores the bytes, and `*conn->write_cursor += res`.
unfoldable pub take_in : List ℕ → Connection → Result Connection
take_in bytes c = do
  let p = write_position c
  m ← store_bytes c.rbuf.heap p bytes
  let stop = advance p (length bytes)
  let first : Ivec = if c.at_secondary then c.rbuf.iv0 else record c.rbuf.iv0 { end = stop }
  let second : Ivec = if c.at_secondary then record c.rbuf.iv1 { end = stop } else c.rbuf.iv1
  ok (record c { rbuf = record c.rbuf { heap = m; iv0 = first; iv1 = second } })

unfoldable pub copy_to_buffer : Recv → Connection → Result (Option Connection)
copy_to_buffer failed c = ok none
copy_to_buffer closed c = ok none
copy_to_buffer (received bytes) c = do
  c1 ← take_in bytes c
  ok (some (record c1 { bytes_allowed = c1.bytes_allowed -ℤ length bytes }))

-- `make_secondary` of a negative size throws, which nothing catches.
unfoldable pub transition_to_secondary : Recv → Connection → Result (Option Connection)
transition_to_secondary failed c = ok none
transition_to_secondary closed c = ok none
transition_to_secondary (received bytes) c = do
  c1 ← take_in bytes c
  let secondary = do
    total ← total_packet_length c1.rbuf
    let size = signed_32 total -ℤ primary_buffer_size
    rbuf ← secondary_of c1.rbuf size
    ok (
        some (record c1 {
          bytes_allowed = size;
          rbuf = rbuf;
          at_secondary = true;
          process_events = copy_to_buffer_handler;
        }))
  if leb_ℤ c1.bytes_allowed (length bytes) then secondary else ok (some c1)
  where
    secondary_of : ReadBuffer → ℤ → Result ReadBuffer
    secondary_of r (pos n) = ok (make_secondary r n)
    secondary_of r (negsuc n) = err undefined

unfoldable pub resolve_length : Recv → Connection → Result (Option Connection)
resolve_length failed c = ok none
resolve_length closed c = ok none
resolve_length (received bytes) c = do
  c1 ← take_in bytes c
  (len, rbuf) ← read_length c1.rbuf
  let c2 = record c1 { bytes_allowed = c1.bytes_allowed -ℤ length bytes; rbuf = rbuf }
  let small = do
    total ← total_packet_length rbuf
    taken ← distance (write_position c2) c2.primary
    ok (
        some (record c2 {
          bytes_allowed = signed_32 total -ℤ taken;
          process_events = copy_to_buffer_handler;
        }))
  if len == minus_one
      then ok (some c2)
      else if ltb len (2 ^ 31) && ltb (primary_buffer_size - rbuf.sizeof_length) len
      then ok (some (record c2 { process_events = transition_to_secondary_handler }))
      else small

abbrev pub run_handler : Handler → Recv → Connection → Result (Option Connection)
run_handler resolve_length_handler = resolve_length
run_handler transition_to_secondary_handler = transition_to_secondary
run_handler copy_to_buffer_handler = copy_to_buffer

-- `conn->process_events(conn)`.
unfoldable pub process : Recv → Connection → Result (Option Connection)
process r c = run_handler c.process_events r c

unfoldable pub ready : Connection → Bool
ready c = leb_ℤ c.bytes_allowed 0

-- The bytes behind the packet are copied to the start of `primary`, one after the other.
unfoldable pub reset : Connection → Result Connection
reset c = do
  rbuf ← (elim c.bytes_allowed [ pos n ↦ feed c.rbuf c.primary | negsuc n ↦ kept (suc n) ])
  ok (record c {
    rbuf = rbuf;
    at_secondary = false;
    bytes_allowed = pos primary_buffer_size;
    process_events = resolve_length_handler;
  })
  where
    kept : ℕ → Result ReadBuffer
    kept overflow = do
      total ← total_packet_length c.rbuf
      from ← (elim (signed_32 total) [
        | pos n ↦ ok (advance c.primary n)
        | negsuc n ↦ retreat c.primary (suc n)
      ])
      m ← copy_bytes overflow c.rbuf.heap from c.primary
      feed (record c.rbuf { heap = m }) (advance c.primary overflow)
