-- ===== src/Clientbound/Partial.antt =====
-- `write_wbuf` over several calls of `writev`: a packet that the kernel takes in parts, and an error
-- in the middle of one.
use mosss.Common.{
  ℕ, zero, suc, ◌-◌, ◌≤◌, ◌<◌, ◌≡◌, refl, sym, ap, ◌∙◌, List, [], ◌∷◌, ◌++◌, length, arith, ok,
  Option, none, some, take, drop, append-nil, length-drop,
}
use mosss.Memory.{update}
use mosss.WriteBuffer.{Iovec, WriteBuffer, finalize, reset}
use mosss.WriteBuffer.Frame.{gather}
use mosss.Clientbound.{pending, write_loop, write_wbuf}
use mosss.Clientbound.Delivery.{pending-gather}
use mosss.Clientbound.Splits.{shortened}
use mosss.Clientbound.Rounds.{bytes_taken, took, Standing, write_loop-took, last_call}

take-drop : (n : ℕ) (xs : List ℕ) → take n xs ++ drop n xs ≡ xs
take-drop zero xs = refl
take-drop (suc n) [] = refl
take-drop (suc n) (x ∷ xs) = ap (λ ys. x ∷ ys) (take-drop n xs)

Standing-gather :
    (w : WriteBuffer) (bytes : List ℕ)
    → gather w.heap w.iov w.iov_cursor ≡ ok bytes
    → 0 < w.iov_cursor
    → w.iov_cursor ≤ w.iov_size
    → Standing w w.iov 0 bytes
Standing-gather w bytes sends pos more = record {
  lists =
      ap (pending w.heap w.iov 0) (omega arith)
      ∙ pending-gather w.heap w.iov w.iov_cursor bytes sends;
  inside = pos;
  spare = more;
  behind = λ i h. refl;
}

write_wbuf-loop :
    (results : List (Option ℕ)) (w w1 w2 : WriteBuffer) (taken : List ℕ)
    → finalize w ≡ ok w1
    → write_loop results 0 w1 ≡ ok (taken, w2)
    → write_wbuf results w ≡ ok (taken, reset w2)
unfolding write_wbuf
write_wbuf-loop results w w1 w2 taken fin loop = rw (fin, loop) refl

-- Where the array of iovecs has one more element, left from an earlier packet and not empty, and
-- the kernel takes the packet in any number of calls, `rs` bytes and then all that is left,
-- `write_wbuf` returns, the kernel has taken the bytes that `iov()` lists, in order and once each,
-- and the buffer is as `reset` leaves it.
pub write_wbuf-took :
    (w w1 : WriteBuffer) (bytes rs : List ℕ) (results : List (Option ℕ)) (stale : Iovec)
    → finalize w ≡ ok w1
    → gather w1.heap w1.iov w1.iov_cursor ≡ ok bytes
    → 0 < w1.iov_cursor
    → w1.iov_cursor < w1.iov_size
    → w1.iov w1.iov_cursor ≡ some stale
    → 0 < stale.iov_len
    → bytes_taken rs < length bytes
    → (iov : ℕ → Option Iovec) × (write_wbuf
          (took rs (some (length bytes - bytes_taken rs) ∷ results))
          w
        ≡ ok (bytes, reset (record w1 { iov = iov })))
write_wbuf-took w w1 bytes rs results stale fin sends pos more listed long few =
    let t = bytes_taken rs in
    let p =
      write_loop-took rs w1 w1.iov 0 bytes (Standing-gather w1 bytes sends pos (omega arith)) few in
    let left = drop t bytes in
    let cut = update p.cut w1.iov_cursor (some (shortened stale 0)) in
    let last : write_loop (some (length bytes - t) ∷ results) p.next (record w1 { iov = p.cut })
        ≡ ok (left, record w1 { iov = cut }) =
      ap (λ n. write_loop (some n ∷ results) p.next (record w1 { iov = p.cut }))
        (sym (length-drop t bytes))
      ∙ last_call w1 p.cut p.next left results stale p.stands more listed long in
    let whole = p.goes_on (some (length bytes - t) ∷ results) left (record w1 { iov = cut }) last in
    (
      cut,
      write_wbuf-loop _ w w1 (record w1 { iov = cut }) _ fin whole
          ∙ ap (λ ys. ok (ys, reset (record w1 { iov = cut }))) (take-drop t bytes),
    )

-- Where the kernel takes `rs` bytes, less than the whole packet, and the next call returns -1 (as it
-- does with EAGAIN on a socket that is not blocking and whose buffer is full), `write_wbuf` returns
-- with no more than the front of the packet sent, and the buffer is reset: the rest of the packet is
-- not kept.
pub write_wbuf-drops :
    (w w1 : WriteBuffer) (bytes rs : List ℕ) (results : List (Option ℕ))
    → finalize w ≡ ok w1
    → gather w1.heap w1.iov w1.iov_cursor ≡ ok bytes
    → 0 < w1.iov_cursor
    → w1.iov_cursor ≤ w1.iov_size
    → bytes_taken rs < length bytes
    → (iov : ℕ → Option Iovec) × (write_wbuf (took rs (none ∷ results)) w
        ≡ ok (take (bytes_taken rs) bytes, reset (record w1 { iov = iov })))
unfolding write_loop
write_wbuf-drops w w1 bytes rs results fin sends pos more few =
    let t = bytes_taken rs in
    let p = write_loop-took rs w1 w1.iov 0 bytes (Standing-gather w1 bytes sends pos more) few in
    let whole = p.goes_on (none ∷ results) [] (record w1 { iov = p.cut }) refl in
    (
      p.cut,
      write_wbuf-loop _ w w1 (record w1 { iov = p.cut }) _ fin whole
          ∙ ap (λ ys. ok (ys, reset (record w1 { iov = p.cut }))) (append-nil (take t bytes)),
    )
