-- ===== src/ChunkCache.antt =====
-- world/chunk_cache.cpp and headers/math/position.hpp: which chunks around a player are asked for.
-- A coordinate of a position is the integer that `static_cast<int>` makes of the `double`. `debug`,
-- which the code prints at the end, is the result; a chunk that is not there is only marked in it.
-- An array with fewer than one element, an index outside of an array, and a sum that no `int` can
-- hold are undefined.
pub mod Diamond
pub mod Runs
use mosss.Common.{
  ℕ, zero, suc, ◌+◌, ◌-◌, ◌*◌, ◌/◌, ◌^◌, Bool, true, false, ◌&&◌, ltb, ◌==◌, if◌then◌else◌, Result,
  ok, err, undefined, ◌>>=◌,
}
use mosss.Memory.{Pointer, null, at}
use mosss.Connection.{ℤ, pos, negsuc, sub_ℕ}

pub record Position : Type 0 where
  pub x : ℤ
  pub z : ℤ

-- `>> 4` on an `int`.
abbrev pub shift_4 : ℤ → ℤ
shift_4 (pos a) = pos (a / 16)
shift_4 (negsuc a) = negsuc (a / 16)

abbrev pub cx : Position → ℤ
cx p = shift_4 p.x

abbrev pub cz : Position → ℤ
cz p = shift_4 p.z

infixl 65 ◌+ℤ◌
abbrev pub ◌+ℤ◌ : ℤ → ℤ → ℤ
pos a +ℤ pos b = pos (a + b)
pos a +ℤ negsuc b = sub_ℕ a (suc b)
negsuc a +ℤ pos b = sub_ℕ b (suc a)
negsuc a +ℤ negsuc b = negsuc (suc (a + b))

abbrev pub is_int : ℤ → Bool
is_int (pos a) = ltb a (2 ^ 31)
is_int (negsuc a) = ltb a (2 ^ 31)

-- `+` on two `int`s.
abbrev pub add_int : ℤ → ℤ → Result ℤ
add_int a b = if is_int (a +ℤ b) then ok (a +ℤ b) else err undefined

-- `i < 0 ? -i : i`.
abbrev pub magnitude : ℤ → ℕ
magnitude (pos a) = a
magnitude (negsuc a) = suc a

-- `debug`.
pub record Grid : Type 0 where
  pub side : ℕ
  pub cell : ℕ → ℕ → Bool

-- `debug[u][v] = true`.
unfoldable pub mark : ℤ → ℤ → Grid → Result Grid
mark (pos u) (pos v) g =
    if ltb u g.side && ltb v g.side
    then ok (record g { cell = λ a b. if (a == u) && (b == v) then true else g.cell a b })
    else err undefined
mark (pos u) (negsuc v) g = err undefined
mark (negsuc u) v g = err undefined

-- `ChunkCache::at`.
abbrev pub chunk_at : ℤ → ℤ → Pointer
chunk_at x z = null

-- `if (!chunk)`.
abbrev pub load_or_send : Pointer → ℕ → ℤ → ℤ → Grid → Result Grid
load_or_send null distance i j g = do
  u ← add_int i (pos distance)
  v ← add_int j (pos distance)
  mark u v g
load_or_send (at b o) distance i j g = ok g

-- The body of the inner loop.
unfoldable pub visit : Position → ℕ → ℤ → ℤ → Grid → Result Grid
visit p distance i j g = do
  x ← add_int (cx p) i
  z ← add_int (cz p) j
  load_or_send (chunk_at x z) distance i j g

-- `n` rounds of the inner loop, from `j`.
unfoldable pub columns : ℕ → Position → ℕ → ℤ → ℤ → Grid → Result Grid
columns zero p distance i j g = ok g
columns (suc n) p distance i j g = do
  g1 ← visit p distance i j g
  columns n p distance i (j +ℤ pos 1) g1

-- `n` rounds of the outer loop, from `i`.
unfoldable pub rows : ℕ → Position → ℕ → ℤ → Grid → Result Grid
rows zero p distance i g = ok g
rows (suc n) p distance i g = do
  let dist = distance - magnitude i
  g1 ← columns (2 * dist + 1) p distance i (sub_ℕ 0 dist) g
  rows n p distance (i +ℤ pos 1) g1

-- `ChunkCache::request_chunks`.
unfoldable pub request_chunks : Position → ℤ → Result Grid
request_chunks p (negsuc d) = err undefined
request_chunks p (pos d) =
    if is_int (pos (2 * d + 1))
    then rows (2 * d + 1) p d (sub_ℕ 0 d) (record { side = 2 * d + 1; cell = λ a b. false })
    else err undefined
