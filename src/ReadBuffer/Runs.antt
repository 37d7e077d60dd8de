-- ===== src/ReadBuffer/Runs.antt =====
-- Packets at hand: runs of the readers, and the theorems at concrete buffers.
use mosss.Common.{
  ℕ, ◌≡◌, refl, List, [], ◌∷◌, ◌++◌, length, get_elem?, err, undefined, arith, true, ◌==◌,
  if◌then◌else◌,
}
use mosss.Memory.{at, Block, load, in_range}
use mosss.Bytes.{bswap, le_bytes}
use mosss.Varint.{varint, encoding, decode}
use mosss.ReadBuffer.{
  ReadBuffer, read_varint, read_ulong, read_ushort, read_uuid, read_string, read_char,
}
use mosss.ReadBuffer.Stream.{Stream, both, AtSector, Reads, read_char-Stream}
use mosss.ReadBuffer.Varints.{read_varint-decode}
use mosss.ReadBuffer.Numbers.{read_ulong-across}
use mosss.ReadBuffer.Strings.{read_string-undefined}
use mosss.ReadBuffer.Resume.{Resumed, read_length-resumes}
use mosss.ReadBuffer.Overflow.{NoOverflow, reads-NoOverflow}

abbrev block_of : List ℕ → Block
block_of xs = record { size = length xs; alive = true; cells = λ o. get_elem? xs o }

-- The primary sector in block 0, the secondary sector in block 1.
abbrev reader : List ℕ → List ℕ → ReadBuffer
reader xs ys = record {
  heap = record { next = 2; block = λ b. if b == 0 then block_of xs else block_of ys };
  iv0 = record { buf = at 0 0; end = at 0 (length xs) };
  iv1 = record { buf = at 1 0; end = at 1 (length ys) };
  cursor_index = 0;
  pos = 0;
  packet_length = 0;
  sizeof_length = 0;
}

abbrev split_varint : ReadBuffer
split_varint = reader (0xac ∷ []) (0x02 ∷ 0x07 ∷ [])

split_varint-Stream : Stream split_varint (varint 300 ++ (7 ∷ []))
unfolding load in_range varint encoding
split_varint-Stream =
    both (0xac ∷ []) (0x02 ∷ 0x07 ∷ []) refl
      (record {
        block = 0;
        offset = 0;
        buf = refl;
        end = refl;
        fits = omega arith;
        holds = (refl, tt);
      })
      (record {
        block = 1;
        offset = 0;
        buf = refl;
        end = refl;
        fits = omega arith;
        holds = (refl, (refl, tt));
      })
      refl

read_varint-decode_example : Reads Stream split_varint (read_varint split_varint) 300 (7 ∷ [])
unfolding decode varint encoding
read_varint-decode_example =
    read_varint-decode Stream read_char-Stream split_varint (0xac ∷ 0x02 ∷ 7 ∷ []) (7 ∷ []) 300
      (omega arith) refl split_varint-Stream

-- The time 258, three bytes of it in the secondary buffer.
abbrev split_time : ReadBuffer
split_time = reader (0 ∷ 0 ∷ 0 ∷ 0 ∷ 0 ∷ []) (0 ∷ 1 ∷ 2 ∷ [])

read_ulong-across_example : Reads Stream split_time (read_ulong split_time) (bswap 8 258) []
unfolding load in_range le_bytes
read_ulong-across_example =
    read_ulong-across split_time 258 (0 ∷ 0 ∷ 0 ∷ 0 ∷ 0 ∷ []) (0 ∷ 1 ∷ 2 ∷ []) [] refl refl
      (record {
        block = 0;
        offset = 0;
        buf = refl;
        end = refl;
        fits = omega arith;
        holds = (refl, (refl, (refl, (refl, (refl, tt)))));
      })
      (record {
        block = 1;
        offset = 0;
        buf = refl;
        end = refl;
        fits = omega arith;
        holds = (refl, (refl, (refl, tt)));
      })
      (omega arith)

-- A string of three bytes of which two are there.
abbrev cut_string : ReadBuffer
cut_string = reader (3 ∷ 104 ∷ 105 ∷ []) []

cut_string-AtSector : AtSector 0 (at 0 3) cut_string (varint 3 ++ (104 ∷ 105 ∷ []))
unfolding load in_range varint encoding
cut_string-AtSector = record {
  iv = cut_string.iv0;
  index = refl;
  at_cursor = refl;
  stops = refl;
  sector = record {
    block = 0;
    offset = 0;
    buf = refl;
    end = refl;
    fits = omega arith;
    holds = (refl, (refl, (refl, tt)));
  };
}

read_string-undefined_example : read_string cut_string ≡ err undefined
unfolding cut_string-AtSector varint encoding
read_string-undefined_example =
    read_string-undefined 0 (at 0 3) cut_string 3 (104 ∷ 105 ∷ []) cut_string-AtSector (omega arith)
      (omega arith) (omega arith) refl

reads-NoOverflow_example :
    NoOverflow (read_char split_varint)
    × NoOverflow (read_varint split_varint)
    × NoOverflow (read_ushort split_varint)
    × NoOverflow (read_ulong split_varint)
    × NoOverflow (read_string split_varint)
    × NoOverflow (read_uuid split_varint)
reads-NoOverflow_example = reads-NoOverflow split_varint (omega arith)

-- The length 300, its first byte alone.
abbrev half_length : ReadBuffer
half_length = reader (0xac ∷ []) []

-- The length 300, all of it.
abbrev whole_length : ReadBuffer
whole_length = reader (0xac ∷ 0x02 ∷ []) []

read_length-resumes_example :
    Resumed half_length (0xac ∷ []) (0x02 ∷ []) [] 300 whole_length.heap (at 0 2)
unfolding decode load in_range
read_length-resumes_example =
    read_length-resumes half_length (0xac ∷ []) (0x02 ∷ []) [] 300 whole_length.heap (at 0 2) refl
      refl refl (omega arith) (omega arith, tt) (omega arith, tt)
      (record {
        block = 0;
        offset = 0;
        buf = refl;
        end = refl;
        fits = omega arith;
        holds = (refl, tt);
      })
      (record {
        block = 0;
        offset = 0;
        buf = refl;
        end = refl;
        fits = omega arith;
        holds = (refl, (refl, tt));
      })
