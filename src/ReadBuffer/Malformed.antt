-- ===== src/ReadBuffer/Malformed.antt =====
-- `read_length` on bytes that are no length.
use mosss.Common.{
  ℕ, zero, suc, ◌+◌, ◌-◌, ◌*◌, ◌^◌, ◌≤◌, ◌<◌, ◌≡◌, subst, ◌∙◌, List, [], ◌∷◌, err, malformed_varint,
  arith, All, lt→ltb, le→ltb,
}
use mosss.Common.Bits.{high_half}
use mosss.Bytes.Order.{IsByte}
use mosss.Varint.{decode, decode_fifth_malformed, decode_malformed_top, decode_more_malformed}
use mosss.ReadBuffer.{ReadBuffer, read_length_last, read_length_loop, read_length}
use mosss.ReadBuffer.Stream.{Sector, Sector-head, Sector-tail}
use mosss.ReadBuffer.Varints.{value_fits}
use mosss.ReadBuffer.Lengths.{reached_more, next, loop_continues, loop_reaches_last}
use mosss.ReadBuffer.Waits.{Progress}
use native.Mathlib.Decide.{dec_lt}

last-malformed :
    (r : ReadBuffer) (bs : List ℕ)
    → All IsByte bs
    → decode 0 bs ≡ err malformed_varint
    → Sector r.heap r.iv0 bs
    → read_length_last r ≡ err malformed_varint
last-malformed r [] bytes d s = unfold decode in cc
last-malformed r (c ∷ bs) bytes d s =
    unfold read_length_last in
    ground (
      arith,
      reached_more r.iv0 c bs s,
      Sector-head r.iv0 c bs s,
      high_half c,
      decode_fifth_malformed c bs d,
    )

loop-malformed :
    (k fuel : ℕ) (r : ReadBuffer) (bs : List ℕ)
    → k ≤ fuel
    → r.pos + 7 * k ≡ 21
    → r.packet_length < 2 ^ r.pos
    → All IsByte bs
    → decode (suc k) bs ≡ err malformed_varint
    → Sector r.heap r.iv0 bs
    → read_length_loop (suc fuel) r ≡ err malformed_varint
loop-malformed k fuel r [] f p small bytes d s = unfold decode in cc
loop-malformed zero fuel r (c ∷ bs) f p small bytes d s =
    let high = decode_malformed_top 0 c bs d in
    loop_reaches_last r c bs small s fuel high bytes.0 (omega arith)
    ∙ last-malformed (next r c bs small s) bs bytes.1 (decode_more_malformed 0 c bs high d)
        (Sector-tail r.iv0 c bs s)
loop-malformed (suc k) zero r (c ∷ bs) f p small bytes d s = absurd (omega arith)
loop-malformed (suc k) (suc fuel) r (c ∷ bs) f p small bytes d s =
    let low : r.pos ≤ 21 = omega arith in
    let high = decode_malformed_top (suc k) c bs d in
    loop_continues r c bs small s (suc fuel) high bytes.0 (omega arith)
    ∙ loop-malformed k fuel (next r c bs small s) bs (omega arith) (omega arith)
        (value_fits r.packet_length r.pos c low small) bytes.1
        (decode_more_malformed (suc k) c bs high d) (Sector-tail r.iv0 c bs s)

-- After `j` bytes of a length, bytes that the format refuses make it throw
-- `MalformedVarintException`.
pub read_length-malformed :
    (j : ℕ) (r : ReadBuffer) (bs : List ℕ)
    → Progress j r
    → j ≤ 4
    → All IsByte bs
    → decode (4 - j) bs ≡ err malformed_varint
    → Sector r.heap r.iv0 bs
    → read_length r ≡ err malformed_varint
unfolding read_length
read_length-malformed j r bs p l hb d s = elim (dec_lt j 4) [
  | yes early ↦
      let rounds : 4 - j ≡ suc (3 - j) = omega arith in
      rw (le→ltb 21 r.pos (omega (arith, p.pos))) (
        loop-malformed (3 - j) 3 r bs (omega arith) (omega (arith, p.pos)) p.small hb
          (subst (λ n. decode n bs ≡ err malformed_varint) rounds d) s)
  | no late ↦
      let rounds : 4 - j ≡ 0 = omega arith in
      rw (lt→ltb 21 r.pos (omega (arith, p.pos)))
        (last-malformed r bs hb (subst (λ n. decode n bs ≡ err malformed_varint) rounds d) s)
]
