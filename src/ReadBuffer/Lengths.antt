-- ===== src/ReadBuffer/Lengths.antt =====
-- `read_length`, which takes the length of a packet out of the bytes that have arrived and goes on
-- where it stopped when more arrive.
use mosss.Common.{
  ℕ, zero, suc, ◌+◌, ◌*◌, ◌%◌, ◌^◌, ◌≤◌, ◌<◌, ◌≡◌, refl, ◌∙◌, List, [], ◌∷◌, length, Result, ok,
  arith, All, true, false,
}
use mosss.Common.Bits.{top_bit, high_half}
use mosss.Memory.{Memory, advance}
use mosss.Bytes.Order.{IsByte}
use mosss.Varint.{decode, decode_one, decode_more, decode_fifth}
use mosss.ReadBuffer.{Ivec, ReadBuffer, reached, read_length_last, read_length_loop}
use mosss.ReadBuffer.Stream.{Sector, Sector-head, Sector-tail}
use mosss.ReadBuffer.Varints.{put_group_lem, group_fits, value_fits, shift_groups}
use native.Mathlib.Decide.{dec_lt}

-- `c = *iv->buf++; ++sizeof_length`, and the group joined to the length.
abbrev pub taken : ReadBuffer → ℕ → ReadBuffer
taken r value = record r {
  iv0 = record r.iv0 { buf = advance r.iv0.buf 1 };
  packet_length = value;
  sizeof_length = r.sizeof_length + 1;
}

pub reached_more :
    {m : Memory} (iv : Ivec) (x : ℕ) (xs : List ℕ)
    → Sector m iv (x ∷ xs)
    → reached iv.buf iv.end ≡ ok false
unfolding reached
reached_more iv x xs s = rw (s.buf, s.end) (ground arith)

pub reached_none : {m : Memory} (iv : Ivec) → Sector m iv [] → reached iv.buf iv.end ≡ ok true
unfolding reached
reached_none iv s = rw (s.buf, s.end) (ground arith)

module _ (r : ReadBuffer) (c : ℕ) (bs : List ℕ) (small : r.packet_length < 2 ^ r.pos)
    (s : Sector r.heap r.iv0 (c ∷ bs)) where
  last_takes :
      c < 16
      → r.pos ≡ 28
      → let value = r.packet_length + c * 2 ^ r.pos in
        read_length_last r ≡ ok (value, taken r value)
  unfolding read_length_last
  last_takes fits p = ground (
    arith,
    reached_more r.iv0 c bs s,
    Sector-head r.iv0 c bs s,
    high_half c,
    put_group_lem r.packet_length c r.pos small,
  )

  loop_ends :
      (fuel : ℕ)
      → c < 128
      → r.pos ≤ 21
      → let value = r.packet_length + c * 2 ^ r.pos in
        read_length_loop (suc fuel) r ≡ ok (value, taken r value)
  unfolding read_length_loop
  loop_ends fuel fits low = ground (
    arith,
    reached_more r.iv0 c bs s,
    Sector-head r.iv0 c bs s,
    top_bit c,
    put_group_lem r.packet_length c r.pos small (group_fits r.packet_length r.pos c low small),
  )

  abbrev pub joined : ℕ
  joined = r.packet_length + c % 128 * 2 ^ r.pos

  abbrev pub next : ReadBuffer
  next = record (taken r joined) { pos = r.pos + 7 }

  pub loop_continues :
      (fuel : ℕ)
      → 128 ≤ c
      → c < 256
      → r.pos + 7 ≤ 21
      → read_length_loop (suc fuel) r ≡ read_length_loop fuel next
  unfolding read_length_loop
  loop_continues fuel more byte low = ground (
    arith,
    reached_more r.iv0 c bs s,
    Sector-head r.iv0 c bs s,
    top_bit c,
    put_group_lem r.packet_length c r.pos small
        (group_fits r.packet_length r.pos c (omega arith) small),
  )

  pub loop_reaches_last :
      (fuel : ℕ)
      → 128 ≤ c
      → c < 256
      → r.pos ≡ 21
      → read_length_loop (suc fuel) r ≡ read_length_last next
  unfolding read_length_loop
  loop_reaches_last fuel more byte low = ground (
    arith,
    reached_more r.iv0 c bs s,
    Sector-head r.iv0 c bs s,
    top_bit c,
    put_group_lem r.packet_length c r.pos small
        (group_fits r.packet_length r.pos c (omega arith) small),
  )

-- `call` returns the length `value`, of which `bs` were the bytes still to come, and leaves `rest`.
pub record LengthRead (r : ReadBuffer) (call : Result (ℕ × ReadBuffer)) (value : ℕ)
    (bs rest : List ℕ) : Type 0 where
  pub after : ReadBuffer
  pub returns : call ≡ ok (value, after)
  pub packet_length : after.packet_length ≡ value
  pub sizeof_length : after.sizeof_length + length rest ≡ r.sizeof_length + length bs
  pub sector : Sector after.heap after.iv0 rest
  pub heap : after.heap ≡ r.heap
  pub stops : after.iv0.end ≡ r.iv0.end
  pub cursor_index : after.cursor_index ≡ r.cursor_index
  pub second : after.iv1 ≡ r.iv1

taken-LengthRead :
    (r : ReadBuffer) (call : Result (ℕ × ReadBuffer)) (value c : ℕ) (bs : List ℕ)
    → call ≡ ok (value, taken r value)
    → Sector r.heap r.iv0 (c ∷ bs)
    → LengthRead r call value (c ∷ bs) bs
taken-LengthRead r call value c bs e s = record {
  after = taken r value;
  returns = e;
  packet_length = refl;
  sizeof_length = omega arith;
  sector = Sector-tail r.iv0 c bs s;
  heap = refl;
  stops = refl;
  cursor_index = refl;
  second = refl;
}

next-LengthRead :
    (r : ReadBuffer) (c v : ℕ) (bs rest : List ℕ) {call call' : Result (ℕ × ReadBuffer)}
    (small : r.packet_length < 2 ^ r.pos) (s : Sector r.heap r.iv0 (c ∷ bs))
    → call ≡ call'
    → LengthRead (next r c bs small s) call' v bs rest
    → LengthRead r call v (c ∷ bs) rest
next-LengthRead r c v bs rest small s e l = record {
  after = l.after;
  returns = e ∙ l.returns;
  packet_length = l.packet_length;
  sizeof_length = omega (arith, l.sizeof_length);
  sector = l.sector;
  heap = l.heap;
  stops = l.stops;
  cursor_index = l.cursor_index;
  second = l.second;
}

pub read_length_last-decode :
    (r : ReadBuffer) (v : ℕ) (bs rest : List ℕ)
    → r.pos ≡ 28
    → r.packet_length < 2 ^ r.pos
    → decode 0 bs ≡ ok (v, rest)
    → Sector r.heap r.iv0 bs
    → LengthRead r (read_length_last r) (r.packet_length + v * 2 ^ r.pos) bs rest
read_length_last-decode r v [] rest p small d s = unfold decode in cc
read_length_last-decode r v (c ∷ bs) rest p small d s =
    let (fits, same, left) = decode_fifth c bs rest v d in
    rw (← same, ← left) (taken-LengthRead r _ _ c bs (last_takes r c bs small s fits p) s)

pub read_length_loop-decode :
    (k fuel : ℕ) (r : ReadBuffer) (v : ℕ) (bs rest : List ℕ)
    → k ≤ fuel
    → r.pos + 7 * k ≡ 21
    → r.packet_length < 2 ^ r.pos
    → All IsByte bs
    → decode (suc k) bs ≡ ok (v, rest)
    → Sector r.heap r.iv0 bs
    → LengthRead r (read_length_loop (suc fuel) r) (r.packet_length + v * 2 ^ r.pos) bs rest
read_length_loop-decode k fuel r v [] rest f p small bytes d s = unfold decode in cc
read_length_loop-decode zero fuel r v (c ∷ bs) rest f p small bytes d s = elim (dec_lt c 128) [
  | yes fits ↦
      let (same, left) = decode_one 0 c bs rest v fits d in
      rw (← same, ← left)
        (taken-LengthRead r _ _ c bs (loop_ends r c bs small s fuel fits (omega arith)) s)
  | no more ↦
      let (w, inner, j) = decode_more 0 c bs rest v (omega arith) d in
      rw (j, shift_groups r.packet_length r.pos c w)
        (next-LengthRead r c _ bs rest small s
          (loop_reaches_last r c bs small s fuel (omega arith) bytes.0 (omega arith))
          (read_length_last-decode (next r c bs small s) w bs rest (omega arith)
            (value_fits r.packet_length r.pos c (omega arith) small) inner
            (Sector-tail r.iv0 c bs s)))
]
read_length_loop-decode (suc k) zero r v (c ∷ bs) rest f p small bytes d s = absurd (omega arith)
read_length_loop-decode (suc k) (suc fuel) r v (c ∷ bs) rest f p small bytes d s =
    elim (dec_lt c 128) [
      | yes fits ↦
          let (same, left) = decode_one (suc k) c bs rest v fits d in
          rw (← same, ← left)
            (taken-LengthRead r _ _ c bs (loop_ends r c bs small s (suc fuel) fits (omega arith)) s)
      | no more ↦
          let (w, inner, j) = decode_more (suc k) c bs rest v (omega arith) d in
          rw (j, shift_groups r.packet_length r.pos c w)
            (next-LengthRead r c _ bs rest small s
              (loop_continues r c bs small s (suc fuel) (omega arith) bytes.0 (omega arith))
              (read_length_loop-decode k fuel (next r c bs small s) w bs rest (omega arith)
                (omega arith) (value_fits r.packet_length r.pos c (omega arith) small) bytes.1 inner
                (Sector-tail r.iv0 c bs s)))
    ]
