-- ===== src/WriteBuffer.antt =====
-- network/writebuffer.cpp and headers/network/writebuffer.hpp: a packet is written into a buffer
-- that the object owns, in sectors, and into the memory of the caller's strings; an array of
-- iovecs lists the pieces. Integers and floating-point values are their bit patterns; `heap` is
-- the memory that the pointers go into. A string is given by what `c_str()` and `size()` return.
-- An iovec that `new iovec[]` has not initialised is `none`. The counters `iov_size` and
-- `iov_cursor` do not reach 2 ^ 31; `packet_length` is kept modulo 2 ^ 32, where the
-- `int` of the code overflows from 2 ^ 31 bytes on.
pub mod Invariant
pub mod Capacity
pub mod Put
pub mod Numbers
pub mod Varints
pub mod Pieces
pub mod Iovecs
pub mod Strings
pub mod Frame
pub mod End
pub mod Runs
use mosss.Common.{
  ℕ, zero, suc, ◌+◌, ◌-◌, ◌*◌, ◌%◌, ◌^◌, bit_and, bit_or, Bool, true, false, not, ◌||◌, ◌&&◌, List,
  [], ◌∷◌, ◌++◌, ltb, leb, ◌==◌, if◌then◌else◌, Result, ok, err, undefined, no_fuel, ◌>>=◌, Option,
  none, some, length,
}
use mosss.Memory.{
  Pointer, null, at, Memory, advance, retreat, distance, update, load, store_bytes, copy_bytes,
  allocate, delete,
}
use mosss.Bytes.{le_bytes, bswap, sar7_32, sar7_64}
use mosss.ReadBuffer.{Uuid}

pub record Iovec : Type 0 where
  pub iov_base : Pointer
  pub iov_len : ℕ

-- `iov_size` is the member `_iov_size`, the length of the array `_iov`.
pub record WriteBuffer : Type 0 where
  pub heap : Memory
  pub iov_size : ℕ
  pub iov : ℕ → Option Iovec
  pub iov_cursor : ℕ
  pub packet_length : ℕ
  pub buf : Pointer
  pub end : Pointer
  pub sector_start : Pointer
  pub cursor : Pointer

unfoldable pub construct : Memory → ℕ → WriteBuffer
construct m size =
    let p = at m.next 0 in
    record {
      heap = allocate m (size + 5);
      iov_size = 1;
      iov = λ i. none;
      iov_cursor = 0;
      packet_length = 0;
      buf = p;
      end = advance p (size + 5);
      sector_start = advance p 5;
      cursor = advance p 5;
    }

-- The destructor. The array of iovecs is no block of the memory.
unfoldable pub destruct : WriteBuffer → Result Memory
destruct w = delete w.heap w.buf

-- The four measures, as `size_t`.
abbrev pub buffer_size : WriteBuffer → Result ℕ
buffer_size w = distance w.end w.buf

abbrev pub utilized_size : WriteBuffer → Result ℕ
utilized_size w = distance w.cursor w.buf

abbrev pub sector_size : WriteBuffer → Result ℕ
sector_size w = distance w.cursor w.sector_start

abbrev pub sector_remaining : WriteBuffer → Result ℕ
sector_remaining w = distance w.end w.cursor

unfoldable pub buffer_resize : ℕ → WriteBuffer → Result WriteBuffer
buffer_resize size w = do
  let resized = at w.heap.next 0
  let m = allocate w.heap size
  used ← utilized_size w
  let to_copy = if ltb size used then size else used
  m1 ← copy_bytes to_copy m w.buf resized
  start ← distance w.sector_start w.buf
  position ← distance w.cursor w.buf
  m2 ← delete m1 w.buf
  ok (record w {
    heap = m2;
    buf = resized;
    end = advance resized size;
    sector_start = advance resized start;
    cursor = advance resized position;
  })

abbrev pub extra_capacity : ℕ
extra_capacity = 32

unfoldable pub ensure_capacity : ℕ → WriteBuffer → Result WriteBuffer
ensure_capacity bytes w = do
  remaining ← sector_remaining w
  size ← buffer_size w
  if ltb remaining bytes then buffer_resize (size + bytes + extra_capacity) w else ok w

-- All elements of the old array are copied, so the new one must not be shorter.
unfoldable pub iov_resize : ℕ → WriteBuffer → Result WriteBuffer
iov_resize size w =
    if ltb size w.iov_size
    then err undefined
    else ok (record w { iov_size = size; iov = λ i. if ltb i w.iov_size then w.iov i else none })

-- The macro `WRITE`: the bytes of `x` at the cursor, in the machine's order.
unfoldable pub write_le : ℕ → ℕ → WriteBuffer → Result WriteBuffer
write_le n x w = do
  w1 ← ensure_capacity n w
  m ← store_bytes w1.heap w1.cursor (le_bytes n x)
  ok (record w1 { heap = m; cursor = advance w1.cursor n })

unfoldable pub write_byte : ℕ → WriteBuffer → Result WriteBuffer
write_byte x w = write_le 1 x w

unfoldable pub write_bool : Bool → WriteBuffer → Result WriteBuffer
write_bool x w = write_byte (if x then 1 else 0) w

unfoldable pub write_short_le : ℕ → WriteBuffer → Result WriteBuffer
write_short_le x w = write_le 2 x w

unfoldable pub write_short : ℕ → WriteBuffer → Result WriteBuffer
unfolding write_short_le
write_short x w = write_short_le (bswap 2 x) w

unfoldable pub write_int_le : ℕ → WriteBuffer → Result WriteBuffer
write_int_le x w = write_le 4 x w

unfoldable pub write_int : ℕ → WriteBuffer → Result WriteBuffer
unfolding write_int_le
write_int x w = write_int_le (bswap 4 x) w

unfoldable pub write_long_le : ℕ → WriteBuffer → Result WriteBuffer
write_long_le x w = write_le 8 x w

unfoldable pub write_long : ℕ → WriteBuffer → Result WriteBuffer
unfolding write_long_le
write_long x w = write_long_le (bswap 8 x) w

unfoldable pub write_float_le : ℕ → WriteBuffer → Result WriteBuffer
write_float_le x w = write_le 4 x w

unfoldable pub write_float : ℕ → WriteBuffer → Result WriteBuffer
unfolding write_float_le
write_float x w = write_float_le (bswap 4 x) w

unfoldable pub write_double_le : ℕ → WriteBuffer → Result WriteBuffer
write_double_le x w = write_le 8 x w

unfoldable pub write_double : ℕ → WriteBuffer → Result WriteBuffer
unfolding write_double_le
write_double x w = write_double_le (bswap 8 x) w

-- The macro `WRITE_VARINT` at the type whose `~0x7f` is `mask` and whose `>> 7` is `sar7`.
unfoldable pub write_varint_loop : ℕ → (ℕ → ℕ) → ℕ → ℕ → WriteBuffer → Result WriteBuffer
write_varint_loop mask sar7 zero x w = err no_fuel
write_varint_loop mask sar7 (suc fuel) x w =
    let more =
      write_byte (bit_or (bit_and x 0x7f) 0x80) w >>= write_varint_loop mask sar7 fuel (sar7 x) in
    if bit_and x mask == 0 then write_byte (x % 256) w else more

-- Five and nine rounds: enough for every `x` that is not negative.
unfoldable pub write_varint : ℕ → WriteBuffer → Result WriteBuffer
write_varint x w = write_varint_loop 0xffff_ff80 sar7_32 5 x w

unfoldable pub write_varlong : ℕ → WriteBuffer → Result WriteBuffer
write_varlong x w = write_varint_loop 0xffff_ffff_ffff_ff80 sar7_64 9 x w

unfoldable pub write_uuid : Uuid → WriteBuffer → Result WriteBuffer
write_uuid uuid w = do
  w1 ← ensure_capacity 16 w
  m1 ← store_bytes w1.heap w1.cursor (le_bytes 8 (bswap 8 uuid.most))
  let cursor1 = advance w1.cursor 8
  m2 ← store_bytes m1 cursor1 (le_bytes 8 (bswap 8 uuid.least))
  ok (record w1 { heap = m2; cursor = advance cursor1 8 })

unfoldable pub write_iov : Pointer → ℕ → WriteBuffer → Result WriteBuffer
write_iov bytes size w =
    if ltb w.iov_cursor w.iov_size
    then ok (record w {
      packet_length = (w.packet_length + size) % 2 ^ 32;
      iov = update w.iov w.iov_cursor (some (record { iov_base = bytes; iov_len = size }));
      iov_cursor = w.iov_cursor + 1;
      sector_start = w.cursor;
    })
    else err undefined

unfoldable pub write_bytes : Pointer → ℕ → WriteBuffer → Result WriteBuffer
write_bytes bytes size w =
    let body = do
      sector_len ← sector_size w
      let sector_exists = ltb 0 sector_len
      let needed = w.iov_cursor + 1 + (if sector_exists then 1 else 0)
      w1 ← (if leb w.iov_size needed then iov_resize (w.iov_cursor + 2) w else ok w)
      w2 ←
          (if sector_exists
            then write_iov w1.sector_start sector_len w1
            else if w1.iov_cursor == 0
            then write_iov w1.sector_start 0 w1
            else ok w1)
      write_iov bytes size w2
    in if size == 0 then ok w else body

unfoldable pub write_string : Pointer → ℕ → WriteBuffer → Result WriteBuffer
write_string str size w = do w1 ← write_varint (size % 2 ^ 32) w; write_bytes str size w1

unfoldable pub flush_buffer : WriteBuffer → Result (Bool × WriteBuffer)
flush_buffer w = do
  sector_len ← sector_size w
  let body = do
    w1 ← (if leb w.iov_size (w.iov_cursor + 1) then iov_resize (w.iov_cursor + 1) w else ok w)
    w2 ← write_iov w1.sector_start sector_len w1
    ok (true, w2)
  if ltb 0 sector_len then body else ok (false, w)

-- The loop over `char len[5]` in `iov`, with the elements of `len` that are left.
unfoldable pub length_bytes : ℕ → ℕ → Result (List ℕ)
length_bytes zero x = err undefined
length_bytes (suc left) x =
    let more =
      length_bytes left (sar7_32 x) >>= λ bytes. ok (bit_or (bit_and x 0x7f) 0x80 ∷ bytes) in
    if bit_and x 0xffff_ff80 == 0 then ok ((x % 256) ∷ []) else more

abbrev pub first_iov : Option Iovec → Result Iovec
first_iov none = err undefined
first_iov (some vec) = ok vec

-- `len` written in front of the first piece.
unfoldable pub write_length : WriteBuffer → Result WriteBuffer
write_length w = do
  len ← length_bytes 5 w.packet_length
  vec ← first_iov (w.iov 0)
  start ← retreat vec.iov_base (length len)
  let vec1 : Iovec = record { iov_base = start; iov_len = vec.iov_len + length len }
  m ← store_bytes w.heap start len
  ok (record w { heap = m; iov = update w.iov 0 (some vec1) })

-- `iov()`: the returned array is the member `iov` of the result.
unfoldable pub finalize : WriteBuffer → Result WriteBuffer
finalize w = do
  (flushed, w1) ← flush_buffer w
  if flushed || not (w1.iov_cursor == 0) then write_length w1 else ok w1

unfoldable pub reset : WriteBuffer → WriteBuffer
reset w = record w {
  sector_start = advance w.buf 5;
  cursor = advance w.buf 5;
  iov_cursor = 0;
  packet_length = 0;
}

-- `write_chunk` has only comments in its body.
unfoldable pub write_chunk : {Chunk : Type 0} → Chunk → WriteBuffer → Result WriteBuffer
write_chunk chunk w = ok w
