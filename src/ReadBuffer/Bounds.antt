-- ===== src/ReadBuffer/Bounds.antt =====
-- The ends of the buffers: reads past the last sector, and the secondary buffer under `feed`.
use mosss.Common.{◌≡◌, ◌≢◌, refl, [], err, arith, undefined, ◌>>=◌, ==_self}
use mosss.Memory.{Pointer, null, at, delete}
use mosss.ReadBuffer.{ReadBuffer, read_char, feed}
use mosss.ReadBuffer.Stream.{AtSector, Sector-distance}

-- Behind the last byte of the secondary sector `read_char` reads through `iv + 2`, which is no
-- element of the array, instead of throwing.
read_char_past :
    (stop : Pointer) (r : ReadBuffer) → AtSector 1 stop r [] → read_char r ≡ err undefined
unfolding read_char
read_char_past stop r s = ground (arith, s.index, s.at_cursor, Sector-distance s.iv [] s.sector)

-- Once there is a secondary buffer, the second `feed` from then on at the latest deletes what is
-- no longer, or not, the start of an allocated block.
feed_twice :
    (r : ReadBuffer) (p q : Pointer)
    → r.iv1.buf ≢ null
    → (feed r p >>= λ r1. feed r1 q) ≡ err undefined
unfolding feed delete
feed_twice r p q h = go r.iv1.buf refl
  where
    go : (s : Pointer) → r.iv1.buf ≡ s → (feed r p >>= λ r1. feed r1 q) ≡ err undefined
    go null e = absurd (h e)
    go (at b o) e = ground (arith, ==_self b)
