-- ===== src/WriteBuffer/Runs.antt =====
-- Writes at hand: the theorems at a new buffer.
use mosss.Common.{
  ℕ, ◌+◌, ◌≤◌, ◌<◌, ◌≡◌, ◌≢◌, ap, [], ◌∷◌, ◌++◌, length, get_elem?, ok, err, undefined, arith, true,
  some,
}
use mosss.Memory.{Memory, load}
use mosss.Bytes.{sar7_32}
use mosss.WriteBuffer.{
  WriteBuffer, construct, ensure_capacity, write_byte, write_varint_loop, finalize,
}
use mosss.WriteBuffer.Invariant.{Inv, room}
use mosss.WriteBuffer.Capacity.{CanWrite, fits, ensure_capacity-dangling}
use mosss.WriteBuffer.Put.{Appended}
use mosss.WriteBuffer.Numbers.{write_byte_lem}
use mosss.WriteBuffer.Varints.{write_varint-negative}
use mosss.WriteBuffer.Strings.{Flushed, flush_buffer-Flushed}
use mosss.WriteBuffer.Frame.{construct-Inv, construct_sizes, first_piece, Framed, finalize-Framed}

-- Block 0 holds the caller's string "hi".
abbrev caller : Memory
caller = record {
  next = 1;
  block = λ b. record { size = 2; alive = true; cells = λ o. get_elem? (104 ∷ 105 ∷ []) o };
}

abbrev start : Inv (construct caller 16) [] []
start = construct-Inv caller 16 (omega arith)

room_16 : room start ≡ 16
room_16 = (construct_sizes caller 16 (omega arith)).0

sixteen : (n : ℕ) → n ≤ 16 → CanWrite start n
sixteen n h = fits (omega (arith, room_16))

write_varint-negative_example :
    write_varint_loop 0xffff_ff80 sar7_32 5 0xffff_ffff (construct caller 16)
    ≢ ok (construct caller 16)
write_varint-negative_example =
    write_varint-negative 5 0xffff_ffff (construct caller 16) (omega arith) (omega arith)
      (construct caller 16)

abbrev one_byte : Appended start 1 (write_byte 3 (construct caller 16)) (3 ∷ [])
one_byte = write_byte_lem start 3 (sixteen 1 (omega arith))

finalize-Framed_example :
    Framed one_byte.written.inv (finalize one_byte.written.after) ([] ++ one_byte.sector_after)
finalize-Framed_example =
    finalize-Framed one_byte.written.inv (omega (arith, ap length one_byte.content))
      (omega (arith, ap length one_byte.content))

-- The byte is a piece, and then more is written than there is room for.
abbrev one_piece : Flushed one_byte.written.inv
one_piece = flush_buffer-Flushed one_byte.written.inv

some_pieces : 0 < one_piece.after.iov_cursor
some_pieces = one_piece.some_pieces (omega (arith, ap length one_byte.content))

ensure_capacity-dangling_example :
    (after : WriteBuffer) × (ensure_capacity (room one_piece.inv + 1) one_piece.after ≡ ok after)
    × (after.iov 0 ≡ some (first_piece one_piece.inv some_pieces).vec)
    × (load after.heap (first_piece one_piece.inv some_pieces).vec.iov_base ≡ err undefined)
ensure_capacity-dangling_example =
    ensure_capacity-dangling one_piece.inv (first_piece one_piece.inv some_pieces)
      (room one_piece.inv + 1) (omega arith)
      (omega (
        arith,
        one_piece.growth,
        one_byte.written.growth,
        (construct_sizes caller 16 (omega arith)).1,
      ))
