-- ===== src/ReadBuffer.antt =====
-- network/readbuffer.cpp and headers/network/readbuffer.hpp, ivec.hpp and buffer_helper.hpp:
-- reading a packet from the primary buffer and, behind it, the secondary one.
-- A `char`, and each integer, is its unsigned bit pattern. The member `cursor` is `iv + cursor_index`
-- after the constructor, `feed` and `next_cursor`, so it is not a field; `heap` is the memory that
-- the pointers go into. The `goto` of `read_length` is a call of the code at its label.
pub mod Stream
pub mod Varints
pub mod Numbers
pub mod Lengths
pub mod Waits
pub mod Resume
pub mod Malformed
pub mod Bounds
pub mod Overflow
pub mod Strings
pub mod Runs
use mosss.Common.{
  ℕ, zero, suc, ◌+◌, ◌-◌, ◌*◌, ◌%◌, ◌^◌, bit_and, bit_or, Bool, true, not, ◌&&◌, List, [], ◌∷◌,
  ◌++◌, ltb, leb, ◌==◌, if◌then◌else◌, Result, ok, err, undefined, malformed_varint,
  buffer_overflow, length_error, no_fuel, ◌>>=◌,
}
use mosss.Memory.{Pointer, null, at, Memory, advance, distance, load, load_bytes, allocate, delete}
use mosss.Bytes.{from_le, bswap, sign_extend}

pub record Ivec : Type 0 where
  pub buf : Pointer
  pub end : Pointer

pub record ReadBuffer : Type 0 where
  pub heap : Memory
  pub iv0 : Ivec
  pub iv1 : Ivec
  pub cursor_index : ℕ
  pub pos : ℕ
  pub packet_length : ℕ
  pub sizeof_length : ℕ

abbrev pub Uuid : Type 0
Uuid = record { most : ℕ; least : ℕ }

abbrev pub segment_bits : ℕ
segment_bits = 0b01111111

abbrev pub continue_bit : ℕ
continue_bit = 0b10000000

-- The result -1 of `read_length`.
abbrev pub minus_one : ℕ
minus_one = 2 ^ 32 - 1

-- `ReadBuffer()`: all pointers are null.
unfoldable pub construct : Memory → ReadBuffer
construct m = record {
  heap = m;
  iv0 = record { buf = null; end = null };
  iv1 = record { buf = null; end = null };
  cursor_index = 0;
  pos = 0;
  packet_length = 0;
  sizeof_length = 0;
}

-- `*cursor`. The array `iv` has two elements.
abbrev pub nth_ivec : ℕ → ReadBuffer → Result Ivec
nth_ivec zero r = ok r.iv0
nth_ivec (suc zero) r = ok r.iv1
nth_ivec (suc (suc n)) r = err undefined

abbrev pub cursor : ReadBuffer → Result Ivec
cursor r = nth_ivec r.cursor_index r

abbrev pub with_buf : ℕ → ReadBuffer → Pointer → ReadBuffer
with_buf zero r p = record r { iv0 = record r.iv0 { buf = p } }
with_buf (suc n) r p = record r { iv1 = record r.iv1 { buf = p } }

-- `cursor->buf += n`.
unfoldable pub skip : ReadBuffer → ℕ → Result ReadBuffer
skip r n = do c ← cursor r; ok (with_buf r.cursor_index r (advance c.buf n))

-- `end - buf` as a `size_t`.
unfoldable pub sector_remaining : ReadBuffer → Result ℕ
unfolding distance
sector_remaining r = do c ← cursor r; distance c.end c.buf

-- The sum is an `int`, whose overflow is undefined.
unfoldable pub total_packet_length : ReadBuffer → Result ℕ
total_packet_length r =
    let total = r.packet_length + r.sizeof_length in
    if ltb r.packet_length (2 ^ 31) && leb (2 ^ 31) total
    then err undefined
    else ok (total % 2 ^ 32)

unfoldable pub feed : ReadBuffer → Pointer → Result ReadBuffer
feed r buffer = do
  m ← delete r.heap r.iv1.buf
  ok (record r {
    heap = m;
    iv0 = record { buf = buffer; end = buffer };
    cursor_index = 0;
    pos = 0;
    packet_length = 0;
    sizeof_length = 0;
  })

unfoldable pub make_secondary : ReadBuffer → ℕ → ReadBuffer
make_secondary r size =
    let p = at r.heap.next 0 in
    record r { heap = allocate r.heap size; iv1 = record { buf = p; end = p } }

unfoldable pub next_cursor : ReadBuffer → Result ReadBuffer
next_cursor r =
    if ltb 2 (r.cursor_index + 1)
    then err buffer_overflow
    else ok (record r { cursor_index = r.cursor_index + 1 })

unfoldable pub read_char : ReadBuffer → Result (ℕ × ReadBuffer)
unfolding sector_remaining next_cursor skip
read_char r = do
  remaining ← sector_remaining r
  r1 ← (if ltb remaining 1 then next_cursor r else ok r)
  c ← cursor r1
  x ← load r1.heap c.buf
  r2 ← skip r1 1
  ok (x, r2)

unfoldable pub read_bool : ReadBuffer → Result (Bool × ReadBuffer)
read_bool r = do (x, r1) ← read_char r; ok (not (x == 0), r1)

-- `value |= (c & SEGMENT_BITS) << position` on an `int`.
unfoldable pub put_group : ℕ → ℕ → ℕ → ℕ
put_group value c position = bit_or value (bit_and c segment_bits * 2 ^ position % 2 ^ 32)

-- The fifth byte of a varint.
unfoldable pub read_varint_last : ℕ → ℕ → ReadBuffer → Result (ℕ × ReadBuffer)
unfolding put_group
read_varint_last value position r = do
  (c, r1) ← read_char r
  if bit_and c 0xf0 == 0 then ok (put_group value c position, r1) else err malformed_varint

unfoldable pub read_varint_loop : ℕ → ℕ → ℕ → ReadBuffer → Result (ℕ × ReadBuffer)
unfolding put_group read_varint_last
read_varint_loop zero value position r = err no_fuel
read_varint_loop (suc fuel) value position r = do
  (c, r1) ← read_char r
  let value1 = put_group value c position
  let rest = read_varint_loop fuel value1 (position + 7) r1
  if bit_and c continue_bit == 0
      then ok (value1, r1)
      else if ltb 21 (position + 7)
      then read_varint_last value1 (position + 7) r1
      else rest

-- Four rounds, since `position` is 0, 7, 14 and 21 in them.
unfoldable pub read_varint : ReadBuffer → Result (ℕ × ReadBuffer)
unfolding read_varint_loop
read_varint r = read_varint_loop 4 0 0 r

-- `p >= q`.
unfoldable pub reached : Pointer → Pointer → Result Bool
reached null null = ok true
reached null (at b o) = err undefined
reached (at b o) null = err undefined
reached (at b o) (at c n) = if b == c then ok (leb n o) else err undefined

-- `c = *iv->buf++; ++sizeof_length;`
unfoldable pub take_length_char : ReadBuffer → Result (ℕ × ReadBuffer)
take_length_char r = do
  c ← load r.heap r.iv0.buf
  ok (
    c,
    record r {
      iv0 = record r.iv0 { buf = advance r.iv0.buf 1 };
      sizeof_length = r.sizeof_length + 1;
    },
  )

-- From the label `last_byte` on.
unfoldable pub read_length_last : ReadBuffer → Result (ℕ × ReadBuffer)
unfolding put_group take_length_char reached
read_length_last r = do
  empty ← reached r.iv0.buf r.iv0.end
  let next = do
    (c, r1) ← take_length_char r
    let value = put_group r1.packet_length c r1.pos
    if bit_and c 0xf0 == 0
        then ok (value, record r1 { packet_length = value })
        else err malformed_varint
  if empty then ok (minus_one, r) else next

unfoldable pub read_length_loop : ℕ → ReadBuffer → Result (ℕ × ReadBuffer)
unfolding put_group take_length_char reached read_length_last
read_length_loop zero r = err no_fuel
read_length_loop (suc fuel) r = do
  empty ← reached r.iv0.buf r.iv0.end
  let next = do
    (c, r1) ← take_length_char r
    let value = put_group r1.packet_length c r1.pos
    let r2 = record r1 { packet_length = value }
    let r3 = record r2 { pos = r2.pos + 7 }
    let rest = read_length_loop fuel r3
    if bit_and c continue_bit == 0
        then ok (value, r2)
        else if ltb 21 r3.pos
        then read_length_last r3
        else rest
  if empty then ok (minus_one, r) else next

-- The loop makes at most four rounds, as in `read_varint`.
unfoldable pub read_length : ReadBuffer → Result (ℕ × ReadBuffer)
unfolding read_length_last read_length_loop
read_length r = if ltb 21 r.pos then read_length_last r else read_length_loop 4 r

-- The bytes that the loops copy: `remaining` from this sector, the others from the next one.
unfoldable pub read_across_buffers : ℕ → ℕ → ReadBuffer → Result (List ℕ × ReadBuffer)
unfolding next_cursor skip
read_across_buffers remaining sizeof_type r = do
  let into_secondary = (sizeof_type + 2 ^ 64 - remaining) % 2 ^ 64
  c ← cursor r
  front ← load_bytes r.heap c.buf remaining
  r1 ← next_cursor r
  d ← cursor r1
  back ← load_bytes r1.heap d.buf into_secondary
  r2 ← skip r1 into_secondary
  ok (front ++ back, r2)

-- `read_ulong` at 8 bytes and `read_ushort` at 2.
unfoldable pub read_unsigned : ℕ → ReadBuffer → Result (ℕ × ReadBuffer)
unfolding sector_remaining read_across_buffers skip
read_unsigned sizeof_type r = do
  remaining ← sector_remaining r
  let across = do (bytes, r1) ← read_across_buffers remaining sizeof_type r; ok (from_le bytes, r1)
  let within = do
    c ← cursor r
    bytes ← load_bytes r.heap c.buf sizeof_type
    r1 ← skip r sizeof_type
    ok (bswap sizeof_type (from_le bytes), r1)
  if ltb remaining sizeof_type then across else within

unfoldable pub read_ulong : ReadBuffer → Result (ℕ × ReadBuffer)
unfolding read_unsigned
read_ulong = read_unsigned 8

-- The bit pattern of the `long` is that of the `unsigned long`.
unfoldable pub read_long : ReadBuffer → Result (ℕ × ReadBuffer)
unfolding read_ulong
read_long = read_ulong

unfoldable pub read_ushort : ReadBuffer → Result (ℕ × ReadBuffer)
unfolding read_unsigned
read_ushort = read_unsigned 2

-- `remaining` is measured before the length is read. A negative `size` is a `size_t` beyond what
-- `std::string::resize` allows.
unfoldable pub read_string : ReadBuffer → Result (List ℕ × ReadBuffer)
unfolding sector_remaining sign_extend read_across_buffers skip
read_string r = do
  remaining ← sector_remaining r
  (size, r1) ← read_varint r
  let n = sign_extend size
  let across = if ltb (2 ^ 63 - 1) n then err length_error else read_across_buffers remaining n r1
  let within = do c ← cursor r1; bytes ← load_bytes r1.heap c.buf n; r2 ← skip r1 n; ok (bytes, r2)
  if ltb remaining n then across else within

unfoldable pub read_uuid : ReadBuffer → Result (Uuid × ReadBuffer)
read_uuid r = do
  (most, r1) ← read_ulong r
  (least, r2) ← read_ulong r1
  ok (record { most = most; least = least }, r2)
