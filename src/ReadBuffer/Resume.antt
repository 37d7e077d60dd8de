-- ===== src/ReadBuffer/Resume.antt =====
-- `read_length` called again and again as the bytes of a packet's length arrive.
use mosss.Common.{
  ℕ, zero, suc, ◌+◌, ◌-◌, ◌*◌, ◌^◌, ◌≤◌, ◌<◌, ◌≡◌, refl, ap, subst, sym, ◌∙◌, List, [], ◌++◌,
  length, ok, arith, All, All-append, length-append, le→ltb, lt→ltb,
}
use native.Mathlib.Decide.{dec_lt}
use native.Mathlib.Nat.{pow-suc}
use mosss.Memory.{Memory, Pointer, at, advance}
use mosss.Memory.Holds.{append-Holds}
use mosss.Bytes.Order.{IsByte}
use mosss.Varint.{decode, decode-Split, groups}
use mosss.ReadBuffer.{ReadBuffer, read_length}
use mosss.ReadBuffer.Stream.{Sector}
use mosss.ReadBuffer.Varints.{pow-add_seven}
use mosss.ReadBuffer.Lengths.{LengthRead, read_length_last-decode, read_length_loop-decode}
use mosss.ReadBuffer.Waits.{LengthWaits, Progress, read_length-waits}

-- With all the bytes of the number it returns the length.
pub read_length-decode :
    (j : ℕ) (r : ReadBuffer) (v : ℕ) (bs rest : List ℕ)
    → Progress j r
    → j ≤ 4
    → All IsByte bs
    → decode (4 - j) bs ≡ ok (v, rest)
    → Sector r.heap r.iv0 bs
    → LengthRead r (read_length r) (r.packet_length + v * 2 ^ r.pos) bs rest
unfolding read_length
read_length-decode j r v bs rest p l hb d s = elim (dec_lt j 4) [
  | yes early ↦
      let rounds : 4 - j ≡ suc (3 - j) = omega arith in
      rw (le→ltb 21 r.pos (omega (arith, p.pos))) (
        read_length_loop-decode (3 - j) 3 r v bs rest (omega arith) (omega (arith, p.pos)) p.small
          hb (subst (λ n. decode n bs ≡ ok (v, rest)) rounds d) s)
  | no late ↦
      let rounds : 4 - j ≡ 0 = omega arith in
      rw (lt→ltb 21 r.pos (omega (arith, p.pos))) (
        read_length_last-decode r v bs rest (omega (arith, p.pos)) p.small
          (subst (λ n. decode n bs ≡ ok (v, rest)) rounds d) s)
]

pow-seven : (n : ℕ) → 2 ^ (7 * n) ≡ 128 ^ n
pow-seven zero = refl
pow-seven (suc n) =
    let seven : 7 * suc n ≡ 7 * n + 7 = omega arith in
    rw (seven, pow-add_seven (7 * n), pow-seven n, pow-suc 128 n) (omega arith)

-- `write_cursor` moved on to `stop`, over bytes that arrived in the memory `m`.
abbrev pub received : ReadBuffer → Memory → Pointer → ReadBuffer
received r m stop = record r { heap = m; iv0 = record r.iv0 { end = stop } }

-- The bytes that come after the front stand where the first call stopped.
rest_arrived :
    (r after : ReadBuffer) (front back : List ℕ) (m : Memory) (stop : Pointer)
    → Sector r.heap r.iv0 front
    → Sector after.heap after.iv0 []
    → after.iv0.end ≡ r.iv0.end
    → Sector m (record r.iv0 { end = stop }) (front ++ back)
    → Sector m (record after.iv0 { end = stop }) back
rest_arrived r after front back m stop s e stops whole = record {
  block = whole.block;
  offset = whole.offset + length front;
  buf =
      e.buf
      ∙ ap (at e.block) (omega arith)
      ∙ sym e.end
      ∙ stops
      ∙ s.end
      ∙ ap (λ p. advance p (length front)) (sym s.buf ∙ whole.buf);
  end = whole.end ∙ ap (at whole.block) (omega (arith, length-append front back));
  fits = omega (arith, length-append front back, whole.fits);
  holds = (append-Holds m (at whole.block whole.offset) front back whole.holds).1;
}

-- The first call sees `front`, the second `back` behind it, and `whole` is one call that sees both.
pub record Resumed (r : ReadBuffer) (front back rest : List ℕ) (v : ℕ) (m : Memory) (stop : Pointer)
    : Type 0 where
  pub waits : LengthWaits r (read_length r) front
  pub reads :
      LengthRead
        (received waits.after m stop)
        (read_length (received waits.after m stop))
        v
        back
        rest
  pub whole :
      LengthRead (received r m stop) (read_length (received r m stop)) v (front ++ back) rest

-- Where `front` and `back` together decode to the length `v`, `front` alone does not hold all of this
-- length, `pos` and `packet_length` are zero, as at the start of a packet, and `back` arrives behind
-- `front` in the primary buffer: however the bytes are cut, the call that sees `front` alone returns
-- -1 and takes all of it in, the call that then sees `back` returns `v` and leaves what is behind
-- the length, and one call that sees all of the bytes does so too.
pub read_length-resumes :
    (r : ReadBuffer) (front back rest : List ℕ) (v : ℕ) (m : Memory) (stop : Pointer)
    → r.pos ≡ 0
    → r.packet_length ≡ 0
    → decode 4 (front ++ back) ≡ ok (v, rest)
    → length rest < length back
    → All IsByte front
    → All IsByte back
    → Sector r.heap r.iv0 front
    → Sector m (record r.iv0 { end = stop }) (front ++ back)
    → Resumed r front back rest v m stop
read_length-resumes r front back rest v m stop p0 l0 d more hf hb s all =
    let split = decode-Split 4 front back rest v d more in
    let begins : Progress 0 r = record { pos = p0; small = rw (p0, l0) (omega arith) } in
    let w =
      read_length-waits 0 r front begins (omega (arith, split.length_le)) hf split.continuing s in
    let r2 = received w.after m stop in
    let here : Progress (length front) r2 = record {
      pos = w.pos ∙ rw p0 (omega arith);
      small = w.small;
    } in
    let scale : 2 ^ w.after.pos ≡ 128 ^ length front =
      ap (λ n. 2 ^ n) here.pos ∙ pow-seven (length front) in
    let taken : w.after.packet_length ≡ groups front =
      w.packet_length ∙ rw (p0, l0) (omega arith) in
    let value : w.after.packet_length + split.high * 2 ^ w.after.pos ≡ v =
      rw (taken, scale) (omega (arith, split.value)) in
    let at_once : r.packet_length + v * 2 ^ r.pos ≡ v = rw (p0, l0) (omega arith) in
    let r1 = received r m stop in
    record {
      waits = w;
      reads =
          subst (λ n. LengthRead r2 (read_length r2) n back rest) value
            (read_length-decode (length front) r2 split.high back rest here split.length_le hb
              split.decodes (rest_arrived r w.after front back m stop s w.sector w.stops all));
      whole =
          subst (λ n. LengthRead r1 (read_length r1) n (front ++ back) rest) at_once
            (read_length-decode 0 r1 v (front ++ back) rest
              (record { pos = p0; small = begins.small }) (omega arith)
              (All-append IsByte front back hf hb) d all);
    }
