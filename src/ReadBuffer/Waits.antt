-- ===== src/ReadBuffer/Waits.antt =====
-- `read_length` where the bytes of a packet's length have not all arrived.
use mosss.Common.{
  ℕ, zero, suc, ◌+◌, ◌-◌, ◌*◌, ◌^◌, ◌≤◌, ◌<◌, ◌≡◌, refl, sym, ◌∙◌, List, [], ◌∷◌, length, Result,
  ok, arith, All, le→ltb, lt→ltb,
}
use native.Mathlib.Decide.{dec_lt}
use mosss.Bytes.Order.{IsByte}
use mosss.Varint.{groups, Continuing}
use mosss.ReadBuffer.{ReadBuffer, minus_one, read_length_last, read_length_loop, read_length}
use mosss.ReadBuffer.Stream.{Sector, Sector-tail}
use mosss.ReadBuffer.Varints.{value_fits, shift_groups}
use mosss.ReadBuffer.Lengths.{reached_none, next, loop_continues, loop_reaches_last}

-- `call` returns -1 after it took in all that has arrived, `front`.
pub record LengthWaits (r : ReadBuffer) (call : Result (ℕ × ReadBuffer)) (front : List ℕ)
    : Type 0 where
  pub after : ReadBuffer
  pub returns : call ≡ ok (minus_one, after)
  pub pos : after.pos ≡ r.pos + 7 * length front
  pub packet_length : after.packet_length ≡ r.packet_length + groups front * 2 ^ r.pos
  pub small : after.packet_length < 2 ^ after.pos
  pub sizeof_length : after.sizeof_length ≡ r.sizeof_length + length front
  pub sector : Sector after.heap after.iv0 []
  pub stops : after.iv0.end ≡ r.iv0.end
  pub heap : after.heap ≡ r.heap

waits_here :
    (r : ReadBuffer) (call : Result (ℕ × ReadBuffer))
    → call ≡ ok (minus_one, r)
    → r.packet_length < 2 ^ r.pos
    → Sector r.heap r.iv0 []
    → LengthWaits r call []
waits_here r call e small s = record {
  after = r;
  returns = e;
  pos = omega arith;
  packet_length = omega arith;
  small = small;
  sizeof_length = omega arith;
  sector = s;
  stops = refl;
  heap = refl;
}

waits_next :
    (r : ReadBuffer) (c : ℕ) (front : List ℕ) {call call' : Result (ℕ × ReadBuffer)}
    (small : r.packet_length < 2 ^ r.pos) (s : Sector r.heap r.iv0 (c ∷ front))
    → call ≡ call'
    → LengthWaits (next r c front small s) call' front
    → LengthWaits r call (c ∷ front)
waits_next r c front small s e w = record {
  after = w.after;
  returns = e ∙ w.returns;
  pos = omega (arith, w.pos);
  packet_length = w.packet_length ∙ sym (shift_groups r.packet_length r.pos c (groups front));
  small = w.small;
  sizeof_length = omega (arith, w.sizeof_length);
  sector = w.sector;
  stops = w.stops;
  heap = w.heap;
}

read_length_last-waits :
    (r : ReadBuffer)
    → r.packet_length < 2 ^ r.pos
    → Sector r.heap r.iv0 []
    → LengthWaits r (read_length_last r) []
unfolding read_length_last
read_length_last-waits r small s = waits_here r _ (rw (reached_none r.iv0 s)) small s

read_length_loop-waits :
    (k fuel : ℕ) (r : ReadBuffer) (front : List ℕ)
    → k ≤ fuel
    → r.pos + 7 * k ≡ 21
    → r.packet_length < 2 ^ r.pos
    → length front ≤ suc k
    → All IsByte front
    → All Continuing front
    → Sector r.heap r.iv0 front
    → LengthWaits r (read_length_loop (suc fuel) r) front
unfolding read_length_loop
read_length_loop-waits k fuel r [] f p small l hb hc s =
    waits_here r _ (rw (reached_none r.iv0 s)) small s
read_length_loop-waits zero fuel r (c ∷ []) f p small l hb hc s =
    waits_next r c [] small s (loop_reaches_last r c [] small s fuel hc.0 hb.0 (omega arith)) (
      read_length_last-waits (next r c [] small s)
        (value_fits r.packet_length r.pos c (omega arith) small) (Sector-tail r.iv0 c [] s))
read_length_loop-waits zero fuel r (c ∷ d ∷ front) f p small l hb hc s = absurd (omega arith)
read_length_loop-waits (suc k) zero r (c ∷ front) f p small l hb hc s = absurd (omega arith)
read_length_loop-waits (suc k) (suc fuel) r (c ∷ front) f p small l hb hc s =
    waits_next r c front small s
      (loop_continues r c front small s (suc fuel) hc.0 hb.0 (omega arith))
      (read_length_loop-waits k fuel (next r c front small s) front (omega arith) (omega arith)
        (value_fits r.packet_length r.pos c (omega arith) small) (omega arith) hb.1 hc.1
        (Sector-tail r.iv0 c front s))

-- A buffer that has taken in `j` bytes of a length.
pub record Progress (j : ℕ) (r : ReadBuffer) : Type 0 where
  pub pos : r.pos ≡ 7 * j
  pub small : r.packet_length < 2 ^ r.pos

late_waits :
    (r : ReadBuffer) (front : List ℕ)
    → length front ≤ 0
    → r.packet_length < 2 ^ r.pos
    → Sector r.heap r.iv0 front
    → LengthWaits r (read_length_last r) front
late_waits r [] l small s = read_length_last-waits r small s
late_waits r (c ∷ front) l small s = absurd (omega arith)

-- `read_length` from any point of progress: with too few bytes it takes in all of them, asks for
-- more and has progressed by their number.
pub read_length-waits :
    (j : ℕ) (r : ReadBuffer) (front : List ℕ)
    → Progress j r
    → j + length front ≤ 4
    → All IsByte front
    → All Continuing front
    → Sector r.heap r.iv0 front
    → LengthWaits r (read_length r) front
unfolding read_length
read_length-waits j r front p l hb hc s = elim (dec_lt j 4) [
  | yes early ↦ rw (le→ltb 21 r.pos (omega (arith, p.pos))) (
      read_length_loop-waits (3 - j) 3 r front (omega arith) (omega (arith, p.pos)) p.small
        (omega arith) hb hc s)
  | no late ↦
      rw (lt→ltb 21 r.pos (omega (arith, p.pos))) (late_waits r front (omega arith) p.small s)
]
