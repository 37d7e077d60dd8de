-- ===== src/Clientbound/Success.antt =====
-- `send_login_success` as a whole: from the writes to the bytes that the kernel takes.
use mosss.Common.{
  ℕ, zero, suc, ◌+◌, refl, ◌-◌, ◌≤◌, ◌<◌, ◌≡◌, ap, ◌∙◌, List, [], ◌∷◌, ◌++◌, length, arith, Result,
  ok, ◌==◌, ◌||◌, not, ltb, Option, some, ◌>>=◌, >>=-eq-ok,
}
use mosss.Memory.{Memory, retreat, store_bytes}
use mosss.Memory.Copy.{update_ne}
use mosss.Varint.{varint}
use mosss.ReadBuffer.{Uuid}
use mosss.WriteBuffer.{
  Iovec, WriteBuffer, finalize, reset, sector_size, flush_buffer, write_length, first_iov,
  length_bytes, write_string, write_uuid,
}
use mosss.WriteBuffer.Invariant.{Inv}
use mosss.WriteBuffer.Frame.{gather, Framed}
use mosss.Connection.Keeps.{Ensures, returns, value}
use mosss.Clientbound.{Text, login_success, send_login_success, write_wbuf}
use mosss.Clientbound.Rounds.{bytes_taken, took}
use mosss.Clientbound.Partial.{write_wbuf-took}
use mosss.Clientbound.Pong.{reset_iov-Inv}
use mosss.Clientbound.Slots.{
  Slots, Adds, Adds->>=, same-Slots, Slots-trans, Slots-most, map_each, then_each, then_any,
  if_both, resize-Adds, write_byte-Adds, write_uuid-Adds, write_string-Adds, write_iov-Adds,
}

write_length-Adds : (w : WriteBuffer) → Adds 0 w (write_length w)
unfolding write_length
write_length-Adds w = then_any (length_bytes 5 w.packet_length) _ λ len.
    then_any (first_iov (w.iov 0)) _ λ vec. then_any (retreat vec.iov_base _) _ λ start.
      then_any (store_bytes w.heap start len) _ λ m. returns (record {
        size = refl;
        count = omega arith;
        up = omega arith;
        behind = λ k p h. update_ne w.iov 0 k _ (λ e. absurd (omega arith));
      })

flush_buffer-Adds :
    (w : WriteBuffer)
    → w.iov_cursor + 1 < w.iov_size
    → Ensures (λ a. Slots 1 w a.1) (flush_buffer w)
unfolding flush_buffer
flush_buffer-Adds w room = then_any (sector_size w) _ λ sector_len.
    if_both (ltb 0 sector_len)
      (then_each _ (resize-Adds w (w.iov_cursor + 1) (w.iov_cursor + 1) room) λ w1 s.
        then_each _ (write_iov-Adds w1.sector_start sector_len w1)
          λ w2 t. returns (Slots-trans s t))
      (returns (Slots-most (omega arith) (same-Slots w)))

finalize-Adds : (w : WriteBuffer) → w.iov_cursor + 1 < w.iov_size → Adds 1 w (finalize w)
unfolding finalize
finalize-Adds w room = then_each _ (flush_buffer-Adds w room) λ a s.
    if_both (a.0 || not (a.1.iov_cursor == 0))
      (map_each (λ w2 t. Slots-trans s t) (write_length-Adds a.1)) (returns s)

-- Five pieces at most are those of `login_success`, with the one that `iov()` adds.
login_success-Adds :
    (u : Uuid) (username property : Text) (w : WriteBuffer)
    → w.iov_cursor + 5 < w.iov_size
    → Adds 4 w (login_success u username property w)
unfolding login_success
login_success-Adds u username property w room =
    Adds->>= (write_string property.start property.size)
      (Adds->>= (write_string username.start username.size)
        (Adds->>= (write_uuid u) (write_byte-Adds _ w) λ w1 s. write_uuid-Adds u w1)
        λ w1 s. write_string-Adds username.start username.size w1 (omega (arith, s.size, s.count)))
      λ w1 s. write_string-Adds property.start property.size w1 (omega (arith, s.size, s.count))

-- No piece is listed, and the array of iovecs has, at each of the first places, an element that is
-- not empty.
pub record Spare (w : WriteBuffer) : Type 0 where
  pub idle : w.iov_cursor ≡ 0
  pub more : 5 < w.iov_size
  pub stale : ℕ → Iovec
  pub listed : (k : ℕ) → k ≤ 5 → w.iov k ≡ some (stale k)
  pub long : (k : ℕ) → k ≤ 5 → 0 < (stale k).iov_len

gather-positive :
    (m : Memory) (iov : ℕ → Option Iovec) (n : ℕ) (bytes : List ℕ)
    → gather m iov n ≡ ok bytes
    → 0 < length bytes
    → 0 < n
unfolding gather
gather-positive m iov zero [] h pos = absurd (omega arith)
gather-positive m iov zero (x ∷ bytes) h pos = absurd cc
gather-positive m iov (suc n) bytes h pos = omega arith

-- `result` is a normal return with `packet` sent, after which the buffer can be used again.
pub record Delivered (result : Result (List ℕ × WriteBuffer)) (packet : List ℕ) : Type 0 where
  pub after : WriteBuffer
  pub returns : result ≡ ok (packet, after)
  pub reusable : Inv after [] []

pub send_login_success-Delivered :
    {w : WriteBuffer} (i : Inv w [] []) (u : Uuid) (username property : Text) (bytes rs : List ℕ)
    (results : List (Option ℕ))
    → Spare w
    → Framed i (login_success u username property w >>= finalize) bytes
    → bytes_taken rs < length (varint (length bytes) ++ bytes)
    → Delivered
        (send_login_success
          (took rs (some (length (varint (length bytes) ++ bytes) - bytes_taken rs) ∷ results))
          u
          username
          property
          w)
        (varint (length bytes) ++ bytes)
unfolding send_login_success
send_login_success-Delivered {w} i u username property bytes rs results spare f few =
    let packet = varint (length bytes) ++ bytes in
    let (w0, written, framed) =
      >>=-eq-ok (login_success u username property w) finalize f.returns in
    let calls = took rs (some (length packet - bytes_taken rs) ∷ results) in
    let w1 = f.after in
    let s0 =
      value written
        (login_success-Adds u username property w (omega (arith, spare.idle, spare.more))) in
    let s1 =
      value framed (finalize-Adds w0 (omega (arith, spare.idle, spare.more, s0.size, s0.count))) in
    let k = w1.iov_cursor in
    let some_pieces : 0 < k = gather-positive w1.heap w1.iov k packet f.sends (omega arith) in
    let below : k ≤ 5 = omega (arith, spare.idle, s0.count, s1.count) in
    let stands : w1.iov k ≡ some (spare.stale k) =
      s1.behind k some_pieces (omega arith)
      ∙ s0.behind k some_pieces s1.up
      ∙ spare.listed k below in
    let (iov, sent) =
      write_wbuf-took w0 w1 packet rs results (spare.stale k) framed f.sends some_pieces
        (omega (arith, below, spare.more, s0.size, s1.size)) stands (spare.long k below) few in
    record {
      after = reset (record w1 { iov = iov });
      returns = ap (λ r. r >>= write_wbuf calls) written ∙ sent;
      reusable = reset_iov-Inv w1 iov f.reusable;
    }
