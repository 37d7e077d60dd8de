-- ===== src/ReadBuffer/Varints.antt =====
-- `read_varint` against the description of the format.
use mosss.Common.{
  ℕ, zero, suc, ◌+◌, ◌*◌, ◌%◌, ◌^◌, ◌≤◌, ◌<◌, ◌≡◌, ap, subst, ◌∙◌, List, [], ◌∷◌, ◌++◌, Result, ok,
  err, arith, All, All-append, malformed_varint,
}
use mosss.Common.Bits.{low_seven, top_bit, high_half, bit_or_shifted}
use mosss.Bytes.Order.{IsByte}
use mosss.Varint.{
  varint, decode, decode_one, decode_more, decode_fifth, decode_fifth_malformed,
  decode_more_malformed, decode_malformed_top, varint-IsByte, decode-varint,
}
use mosss.ReadBuffer.{
  ReadBuffer, put_group, read_char, read_varint_last, read_varint_loop, read_varint,
}
use mosss.ReadBuffer.Stream.{View, Reads}
use native.Mathlib.Decide.{dec_lt}
use native.Mathlib.Nat.{pow-le-pow_right}
use native.Mathlib.Numerals.{towards_suc}

pub put_group_lem :
    (value c position : ℕ)
    → value < 2 ^ position
    → c % 128 * 2 ^ position < 2 ^ 32
    → put_group value c position ≡ value + c % 128 * 2 ^ position
unfolding put_group
put_group_lem value c position small fits =
    let e : c % 128 * 2 ^ position % 2 ^ 32 ≡ c % 128 * 2 ^ position = omega arith in
    rw (low_seven c, e) (bit_or_shifted position value (c % 128) small)

pub pow-add_seven : (s : ℕ) → 2 ^ (s + 7) ≡ 128 * 2 ^ s
pow-add_seven s = simp towards_suc (omega arith)

two-pow-le : (s : ℕ) → s ≤ 21 → 2 ^ s ≤ 2 ^ 21
two-pow-le s h = pow-le-pow_right (omega arith) h

pub shift_groups :
    (value position c w : ℕ)
    → value + (c % 128 + 128 * w) * 2 ^ position
      ≡ value + c % 128 * 2 ^ position + w * 2 ^ (position + 7)
shift_groups value position c w = omega (arith, ap (λ (t : ℕ). w * t) (pow-add_seven position))

module _ (value position c : ℕ) (low : position ≤ 21) (small : value < 2 ^ position) where
  pub group_fits : c % 128 * 2 ^ position < 2 ^ 32
  group_fits =
      let bound : c % 128 * 2 ^ position ≤ 128 * 2 ^ 21 = grind (arith, two-pow-le position low) in
      omega arith

  pub value_fits : value + c % 128 * 2 ^ position < 2 ^ (position + 7)
  value_fits =
      let bound : c % 128 * 2 ^ position ≤ 127 * 2 ^ position = grind arith in
      omega (arith, pow-add_seven position)

-- Every view that `read_char` delivers byte by byte.
module _ (V : View)
    (delivers : (r : ReadBuffer) (x : ℕ) (bs : List ℕ)
      → V r (x ∷ bs)
      → Reads V r (read_char r) x bs) where
  last_ends :
      (r : ReadBuffer) (value c : ℕ) (bs : List ℕ)
      → value < 2 ^ 28
      → c < 16
      → V r (c ∷ bs)
      → Reads V r (read_varint_last value 28 r) (value + c * 2 ^ 28) bs
  unfolding read_varint_last
  last_ends r value c bs small fits s =
      let one = delivers r c bs s in
      record {
        after = one.after;
        returns = ground (arith, one.returns, high_half c, put_group_lem value c 28);
        view = one.view;
        heap = one.heap;
      }

  -- One round of the loop: on a last byte, before the fifth byte, and before another round.
  round_ends :
      (r : ReadBuffer) (k value position c : ℕ) (bs : List ℕ)
      → position ≤ 21
      → value < 2 ^ position
      → c < 128
      → V r (c ∷ bs)
      → Reads V r (read_varint_loop (suc k) value position r) (value + c * 2 ^ position) bs
  unfolding read_varint_loop
  round_ends r k value position c bs low small last s =
      let one = delivers r c bs s in
      let bound : c * 2 ^ position ≤ 128 * 2 ^ 21 = grind (arith, two-pow-le position low) in
      let low_part : c % 128 ≡ c = omega arith in
      let put : put_group value c position ≡ value + c * 2 ^ position =
        rw low_part at (put_group_lem value c position small (rw low_part (omega arith))) in
      record {
        after = one.after;
        returns = ground (arith, one.returns, top_bit c, put);
        view = one.view;
        heap = one.heap;
      }

  -- What is left of `read_varint` after a byte with its top bit set.
  record Continues (r : ReadBuffer) (call : Result (ℕ × ReadBuffer))
      (next : ReadBuffer → Result (ℕ × ReadBuffer)) (bs : List ℕ) : Type 0 where
    after : ReadBuffer
    goes_on : call ≡ next after
    view : V after bs
    heap : after.heap ≡ r.heap

  round-Continues :
      (r : ReadBuffer) (k value position c : ℕ) (bs : List ℕ)
      → value < 2 ^ position
      → c < 256
      → 128 ≤ c
      → V r (c ∷ bs)
      → position + 7 ≤ 21
      → Continues r
          (read_varint_loop (suc k) value position r)
          (λ q. read_varint_loop k (value + c % 128 * 2 ^ position) (position + 7) q)
          bs
  unfolding read_varint_loop
  round-Continues r k value position c bs small byte more s next =
      let one = delivers r c bs s in
      record {
        after = one.after;
        goes_on = ground (
          arith,
          one.returns,
          top_bit c,
          put_group_lem value c position small (group_fits value position c (omega arith) small),
        );
        view = one.view;
        heap = one.heap;
      }

  round_reaches_last :
      (r : ReadBuffer) (k value position c : ℕ) (bs : List ℕ)
      → value < 2 ^ position
      → c < 256
      → 128 ≤ c
      → V r (c ∷ bs)
      → position ≡ 21
      → Continues r
          (read_varint_loop (suc k) value position r)
          (λ q. read_varint_last (value + c % 128 * 2 ^ position) (position + 7) q)
          bs
  unfolding read_varint_loop
  round_reaches_last r k value position c bs small byte more s next =
      let one = delivers r c bs s in
      record {
        after = one.after;
        goes_on = ground (
          arith,
          one.returns,
          top_bit c,
          put_group_lem value c position small (group_fits value position c (omega arith) small),
        );
        view = one.view;
        heap = one.heap;
      }

  -- Nothing else of `r` is known to a later read than the stream and the memory.
  Reads-Continues :
      {r : ReadBuffer} {call : Result (ℕ × ReadBuffer)}
      {next : ReadBuffer → Result (ℕ × ReadBuffer)} {bs rest : List ℕ} {x : ℕ}
      → (c : Continues r call next bs) → Reads V c.after (next c.after) x rest
      → Reads V r call x rest
  Reads-Continues c reads = record {
    after = reads.after;
    returns = c.goes_on ∙ reads.returns;
    view = reads.view;
    heap = reads.heap ∙ c.heap;
  }

  last-decode :
      (r : ReadBuffer) (value position v : ℕ) (bs rest : List ℕ)
      → position ≡ 28
      → value < 2 ^ position
      → decode 0 bs ≡ ok (v, rest)
      → V r bs
      → Reads V r (read_varint_last value position r) (value + v * 2 ^ position) rest
  last-decode r value position v [] rest p small d s = unfold decode in cc
  last-decode r value position v (c ∷ bs) rest p small d s =
      let (fits, same, left) = decode_fifth c bs rest v d in
      rw (p, ← same, ← left) (last_ends r value c bs (subst (λ n. value < 2 ^ n) p small) fits s)

  -- The value is what the groups read so far make, the decoded rest counts from bit `position` on.
  loop-decode :
      (k : ℕ) (r : ReadBuffer) (value position v : ℕ) (bs rest : List ℕ)
      → position + 7 * k ≡ 21
      → value < 2 ^ position
      → All IsByte bs
      → decode (suc k) bs ≡ ok (v, rest)
      → V r bs
      → Reads V r (read_varint_loop (suc k) value position r) (value + v * 2 ^ position) rest
  loop-decode k r value position v [] rest p small bytes d s = unfold decode in cc
  loop-decode zero r value position v (c ∷ bs) rest p small bytes d s = elim (dec_lt c 128) [
    | yes last ↦
        let (same, left) = decode_one 0 c bs rest v last d in
        rw (← same, ← left) (round_ends r 0 value position c bs (omega arith) small last s)
    | no more ↦
        let low : position ≤ 21 = omega arith in
        let high : 128 ≤ c = omega arith in
        let (w, inner, joined) = decode_more 0 c bs rest v high d in
        let step = round_reaches_last r 0 value position c bs small bytes.0 high s (omega arith) in
        rw (joined, shift_groups value position c w)
          (Reads-Continues step (
            last-decode step.after _ (position + 7) w bs rest (omega arith)
              (value_fits value position c low small) inner step.view))
  ]
  loop-decode (suc k) r value position v (c ∷ bs) rest p small bytes d s = elim (dec_lt c 128) [
    | yes last ↦
        let (same, left) = decode_one (suc k) c bs rest v last d in
        rw (← same, ← left) (round_ends r (suc k) value position c bs (omega arith) small last s)
    | no more ↦
        let low : position ≤ 21 = omega arith in
        let high : 128 ≤ c = omega arith in
        let (w, inner, joined) = decode_more (suc k) c bs rest v high d in
        let step =
          round-Continues r (suc k) value position c bs small bytes.0 high s (omega arith) in
        rw (joined, shift_groups value position c w)
          (Reads-Continues step (
            loop-decode k step.after _ (position + 7) w bs rest (omega arith)
              (value_fits value position c low small) bytes.1 inner step.view))
  ]

  -- On every stream that the format decodes, `read_varint` gives the decoded number and leaves what
  -- follows it, also where the bytes of the number lie in both buffers.
  pub read_varint-decode :
      (r : ReadBuffer) (bs rest : List ℕ) (v : ℕ)
      → All IsByte bs
      → decode 4 bs ≡ ok (v, rest)
      → V r bs
      → Reads V r (read_varint r) v rest
  unfolding read_varint
  read_varint-decode r bs rest v bytes d s =
      subst (λ n. Reads V r (read_varint_loop 4 0 0 r) n rest) (omega arith)
        (loop-decode 3 r 0 0 v bs rest (omega arith) (omega arith) bytes d s)

  last-malformed :
      (r : ReadBuffer) (value position : ℕ) (bs : List ℕ)
      → All IsByte bs
      → decode 0 bs ≡ err malformed_varint
      → V r bs
      → read_varint_last value position r ≡ err malformed_varint
  last-malformed r value position [] bytes d s = unfold decode in cc
  last-malformed r value position (c ∷ bs) bytes d s =
      let one = delivers r c bs s in
      unfold read_varint_last in
      ground (arith, one.returns, high_half c, decode_fifth_malformed c bs d)

  loop-malformed :
      (k : ℕ) (r : ReadBuffer) (value position : ℕ) (bs : List ℕ)
      → position + 7 * k ≡ 21
      → value < 2 ^ position
      → All IsByte bs
      → decode (suc k) bs ≡ err malformed_varint
      → V r bs
      → read_varint_loop (suc k) value position r ≡ err malformed_varint
  loop-malformed k r value position [] p small bytes d s = unfold decode in cc
  loop-malformed zero r value position (c ∷ bs) p small bytes d s =
      let low : position ≤ 21 = omega arith in
      let high = decode_malformed_top 0 c bs d in
      let step = round_reaches_last r 0 value position c bs small bytes.0 high s (omega arith) in
      step.goes_on
      ∙ last-malformed step.after _ (position + 7) bs bytes.1 (decode_more_malformed 0 c bs high d)
          step.view
  loop-malformed (suc k) r value position (c ∷ bs) p small bytes d s =
      let low : position ≤ 21 = omega arith in
      let high = decode_malformed_top (suc k) c bs d in
      let step = round-Continues r (suc k) value position c bs small bytes.0 high s (omega arith) in
      step.goes_on
      ∙ loop-malformed k step.after _ (position + 7) bs (omega arith)
          (value_fits value position c low small) bytes.1
          (decode_more_malformed (suc k) c bs high d) step.view

  -- `read_varint` throws `MalformedVarintException` on every stream whose number the format refuses.
  read_varint-malformed :
      (r : ReadBuffer) (bs : List ℕ)
      → All IsByte bs
      → decode 4 bs ≡ err malformed_varint
      → V r bs
      → read_varint r ≡ err malformed_varint
  unfolding read_varint
  read_varint-malformed r bs bytes d s =
      loop-malformed 3 r 0 0 bs (omega arith) (omega arith) bytes d s

  -- `read_varint` gives back every `int32_t` whose encoding, followed by bytes, is the stream.
  pub read_varint-varint :
      (r : ReadBuffer) (x : ℕ) (rest : List ℕ)
      → x < 2 ^ 32
      → All IsByte rest
      → V r (varint x ++ rest)
      → Reads V r (read_varint r) x rest
  read_varint-varint r x rest fits bytes s =
      read_varint-decode r (varint x ++ rest) rest x
        (All-append IsByte (varint x) rest (varint-IsByte x fits) bytes) (decode-varint x rest fits)
        s
