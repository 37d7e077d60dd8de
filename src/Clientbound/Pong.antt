-- ===== src/Clientbound/Pong.antt =====
-- `send_pong_response` as a whole: from the writes to the bytes that the kernel takes.
use mosss.Common.{
  ℕ, ◌-◌, ◌≤◌, ◌<◌, ◌≡◌, sym, ap, ◌∙◌, List, [], ◌∷◌, ◌++◌, length, arith, ok, Option, some, ◌>>=◌,
  inl, inr,
}
use mosss.Memory.{advance, update}
use mosss.Bytes.Order.{be_bytes, length-be_bytes}
use mosss.Varint.{varint, encoding}
use mosss.WriteBuffer.{Iovec, WriteBuffer, write_long, reset}
use mosss.WriteBuffer.Invariant.{Inv, nothing, room}
use mosss.WriteBuffer.Capacity.{fits}
use mosss.WriteBuffer.Put.{Appended->>=}
use mosss.WriteBuffer.Numbers.{write_numbers-be_bytes}
use mosss.WriteBuffer.Varints.{byte-Appended}
use mosss.WriteBuffer.Frame.{gather, finalize-OneSector}
use mosss.Clientbound.{pong_response, send_pong_response, write_wbuf}
use mosss.Clientbound.Delivery.{write_wbuf-delivers}

-- A buffer that holds nothing does not depend on the array of iovecs.
pub reset_iov-Inv :
    (w : WriteBuffer) (iov : ℕ → Option Iovec)
    → Inv (reset w) [] []
    → Inv (reset (record w { iov = iov })) [] []
unfolding reset
reset_iov-Inv w iov i =
    let l = i.layout in
    record {
      layout = record {
        block = l.block;
        capacity = l.capacity;
        start = l.start;
        position = l.position;
        buf = l.buf;
        end = l.end;
        sector_start = l.sector_start;
        cursor = l.cursor;
        header = l.header;
        ordered = l.ordered;
        fits = l.fits;
        small = l.small;
        alive = l.alive;
        size = l.size;
        known = l.known;
      };
      holds = tt;
      position = i.position;
      pieces = nothing;
      cursor_le = i.cursor_le;
      packet_length = i.packet_length;
      first = elim i.first [
        | inl none_yet ↦ inl none_yet
        | inr f ↦ absurd (omega (arith, f.some_pieces))
      ];
    }

-- What `send_pong_response` leaves when the kernel takes the packet at once.
pub record Ponged (results : List (Option ℕ)) (x : ℕ) (w : WriteBuffer) : Type 0 where
  pub after : WriteBuffer
  pub returns : send_pong_response results x w ≡ ok (9 ∷ 1 ∷ be_bytes 8 x, after)
  pub reusable : Inv after [] []

pub send_pong_response-Ponged :
    {w : WriteBuffer} (i : Inv w [] []) (x : ℕ) (results : List (Option ℕ)) (stale : Iovec)
    → 9 ≤ room i
    → w.iov_cursor ≡ 0
    → 1 < w.iov_size
    → w.iov 1 ≡ some stale
    → 0 < stale.iov_len
    → Ponged (some 10 ∷ results) x w
unfolding send_pong_response pong_response varint encoding
send_pong_response-Ponged {w} i x results stale free idle slots listed long =
    let one = byte-Appended i 1 (omega arith) (fits (omega arith)) in
    let two =
      (write_numbers-be_bytes one.written.inv x (fits (omega (arith, one.written.room_left)))).2 in
    let both = Appended->>= (write_long x) one two in
    let eight = length-be_bytes 8 x in
    let nine : length both.sector_after ≡ 9 = ap length both.content ∙ omega (arith, eight) in
    let f =
      finalize-OneSector both.written.inv (omega (arith, nine)) (omega (arith, nine))
        (omega (arith, both.count, idle, both.slots)) in
    let w1 = f.framed.after in
    let count : w1.iov_cursor ≡ 1 = omega (arith, f.count, both.count, idle) in
    let bytes = 9 ∷ 1 ∷ be_bytes 8 x in
    let ten : length bytes ≡ 10 = omega (arith, eight) in
    let sends : gather w1.heap w1.iov w1.iov_cursor ≡ ok bytes =
      f.framed.sends
      ∙ ap (λ n. ok (varint n ++ both.sector_after)) nine
      ∙ ap (λ s. ok (9 ∷ s)) both.content in
    let spare : w1.iov w1.iov_cursor ≡ some stale =
      ap w1.iov (omega (arith, count, both.count, idle))
      ∙ f.behind
      ∙ ap both.written.after.iov (omega (arith, both.count, idle))
      ∙ ap (λ v. v 1) both.iov
      ∙ listed in
    let vec : Iovec = record { iov_base = advance stale.iov_base 0; iov_len = stale.iov_len - 0 } in
    let delivers =
      write_wbuf-delivers both.written.after w1 bytes results stale f.framed.returns sends
        (omega (arith, count)) (omega (arith, count, f.slots, both.slots)) spare long in
    record {
      after = reset (record w1 { iov = update w1.iov w1.iov_cursor (some vec) });
      returns =
          ap (λ r. r >>= write_wbuf (some 10 ∷ results)) both.written.returns
          ∙ ap (λ n. write_wbuf (some n ∷ results) both.written.after) (sym ten)
          ∙ delivers;
      reusable = reset_iov-Inv w1 (update w1.iov w1.iov_cursor (some vec)) f.framed.reusable;
    }
