-- ===== src/Clientbound/Delivery.antt =====
-- `write_wbuf`: what the kernel takes, and the look at the iovec behind the last one.
use mosss.Common.{
  ok_injective, ℕ, zero, suc, ◌+◌, ◌-◌, ◌≤◌, ◌<◌, ◌≡◌, refl, sym, ap, ap₂, ◌∙◌, List, [], ◌∷◌, ◌++◌,
  length, arith, ok, err, undefined, Option, none, some, >>=-eq-ok, leb, lt→ltb, le→ltb, take,
  append_assoc, append-nil, length-append, true, false,
}
use mosss.Memory.{Memory, Pointer, load, load_bytes, update, advance}
use mosss.WriteBuffer.{Iovec, WriteBuffer, first_iov, finalize, reset}
use mosss.WriteBuffer.Frame.{gather}
use mosss.Clientbound.{pending, skip_written, write_loop, write_wbuf}

pub length-load_bytes :
    (m : Memory) (p : Pointer) (n : ℕ) (xs : List ℕ) → load_bytes m p n ≡ ok xs → length xs ≡ n
unfolding load_bytes
length-load_bytes m p zero xs h = sym (ap length (ok_injective h))
length-load_bytes m p (suc n) xs h =
    let (x, one, h1) = >>=-eq-ok (load m p) _ h in
    let (rest, more, h2) = >>=-eq-ok (load_bytes m (advance p 1) n) _ h1 in
    sym (ap length (ok_injective h2)) ∙ ap suc (length-load_bytes m (advance p 1) n rest more)

-- A gathering of one iovec more, taken apart.
record Peeled (m : Memory) (iov : ℕ → Option Iovec) (n : ℕ) (bs : List ℕ) : Type 0 where
  front : List ℕ
  back : List ℕ
  vec : Iovec
  gathered : gather m iov n ≡ ok front
  listed : iov n ≡ some vec
  loaded : load_bytes m vec.iov_base vec.iov_len ≡ ok back
  whole : bs ≡ front ++ back

pub first_iov_lem : (v : Option Iovec) (vec : Iovec) → first_iov v ≡ ok vec → v ≡ some vec
first_iov_lem none vec h = absurd cc
first_iov_lem (some v) vec h = cc

peel :
    (m : Memory) (iov : ℕ → Option Iovec) (n : ℕ) (bs : List ℕ)
    → gather m iov (suc n) ≡ ok bs
    → Peeled m iov n bs
unfolding gather
peel m iov n bs h =
    let (front, gathered, h1) = >>=-eq-ok (gather m iov n) _ h in
    let (vec, listed, h2) = >>=-eq-ok (first_iov (iov n)) _ h1 in
    let (back, loaded, h3) = >>=-eq-ok (load_bytes m vec.iov_base vec.iov_len) _ h2 in
    record {
      front = front;
      back = back;
      vec = vec;
      gathered = gathered;
      listed = first_iov_lem (iov n) vec listed;
      loaded = loaded;
      whole = cc;
    }

whole_iovec :
    (vec : Iovec) (left : ℕ) (iov : ℕ → Option Iovec) (n size res : ℕ)
    → iov n ≡ some vec
    → size ≡ vec.iov_len
    → skip_written (suc left) iov n (size + res) ≡ skip_written left iov (suc n) res
unfolding skip_written
whole_iovec vec left iov n size res listed exact =
    let next : n + 1 ≡ suc n = omega arith in
    let test : leb vec.iov_len (size + res) ≡ true = ground arith in
    let keep : size + res - vec.iov_len ≡ res = omega arith in rw (listed, test, next, keep) refl

-- All that `n` iovecs list is skipped, one iovec after the other.
skip_written-gather :
    (m : Memory) (iov : ℕ → Option Iovec) (n left res : ℕ) (bs : List ℕ)
    → gather m iov n ≡ ok bs
    → skip_written (n + left) iov 0 (length bs + res) ≡ skip_written left iov n res
unfolding skip_written gather
skip_written-gather m iov zero left res bs h =
    ap₂ (λ a b. skip_written a iov 0 b) (omega arith) (omega (arith, ap length (ok_injective h)))
skip_written-gather m iov (suc n) left res bs h =
    let p = peel m iov n bs h in
    let size : length bs ≡ length p.front + length p.back =
      ap length p.whole ∙ length-append p.front p.back in
    let exact = length-load_bytes m p.vec.iov_base p.vec.iov_len p.back p.loaded in
    let before = skip_written-gather m iov n (suc left) (length p.back + res) p.front p.gathered in
    ap₂ (λ a b. skip_written a iov 0 b) (omega arith) (omega (arith, size))
    ∙ before
    ∙ whole_iovec p.vec left iov n (length p.back) res p.listed exact

pub not_whole :
    (vec : Iovec) (left : ℕ) (iov : ℕ → Option Iovec) (n : ℕ)
    → iov n ≡ some vec
    → 0 < vec.iov_len
    → skip_written (suc left) iov n 0 ≡ ok (n, 0)
unfolding skip_written
not_whole vec left iov n listed long =
    let test : leb vec.iov_len 0 ≡ false = ground arith in rw (listed, test) refl

pub take_all : (bs : List ℕ) → take (length bs) bs ≡ bs
take_all [] = refl
take_all (x ∷ bs) = ap (λ ys. x ∷ ys) (take_all bs)

pub pending-cons :
    (m : Memory) (iov : ℕ → Option Iovec) (k n : ℕ) (vec : Iovec) (front rest : List ℕ)
    → first_iov (iov k) ≡ ok vec
    → load_bytes m vec.iov_base vec.iov_len ≡ ok front
    → pending m iov (k + 1) n ≡ ok rest
    → pending m iov k (suc n) ≡ ok (front ++ rest)
unfolding pending
pending-cons m iov k n vec front rest listed loaded more = rw (listed, loaded, more) refl

pending-snoc :
    (m : Memory) (iov : ℕ → Option Iovec) (n k : ℕ) (xs ys : List ℕ) (vec : Iovec)
    → pending m iov k n ≡ ok xs
    → iov (k + n) ≡ some vec
    → load_bytes m vec.iov_base vec.iov_len ≡ ok ys
    → pending m iov k (suc n) ≡ ok (xs ++ ys)
unfolding pending
pending-snoc m iov zero k xs ys vec h listed loaded =
    let here : iov k ≡ some vec = ap iov (omega arith) ∙ listed in
    rw (here, loaded) (ap ok (append-nil ys ∙ ap (λ zs. zs ++ ys) (ok_injective h)))
pending-snoc m iov (suc n) k xs ys vec h listed loaded =
    let (first, one, h1) = >>=-eq-ok (first_iov (iov k)) _ h in
    let (front, two, h2) = >>=-eq-ok (load_bytes m first.iov_base first.iov_len) _ h1 in
    let (rest, three, h3) = >>=-eq-ok (pending m iov (k + 1) n) _ h2 in
    let more =
      pending-snoc m iov n (k + 1) rest ys vec three (ap iov (omega arith) ∙ listed) loaded in
    let whole : front ++ rest ≡ xs = ok_injective h3 in
    pending-cons m iov k (suc n) first front (rest ++ ys) one two more
    ∙ ap ok (sym (append_assoc front rest ys) ∙ ap (λ zs. zs ++ ys) whole)

pub pending-gather :
    (m : Memory) (iov : ℕ → Option Iovec) (n : ℕ) (bs : List ℕ)
    → gather m iov n ≡ ok bs
    → pending m iov 0 n ≡ ok bs
unfolding gather pending
pending-gather m iov zero bs h = h
pending-gather m iov (suc n) bs h =
    let p = peel m iov n bs h in
    pending-snoc m iov n 0 p.front p.back p.vec (pending-gather m iov n p.front p.gathered)
      (ap iov (omega arith) ∙ p.listed) p.loaded
    ∙ ap ok (sym p.whole)

pub write_loop_done :
    (results : List (Option ℕ)) (k : ℕ) (w : WriteBuffer)
    → w.iov_cursor ≤ k
    → write_loop results k w ≡ ok ([], w)
unfolding write_loop
write_loop_done [] k w h = rw (le→ltb k w.iov_cursor h) refl
write_loop_done (none ∷ results) k w h = refl
write_loop_done (some res ∷ results) k w h = rw (le→ltb k w.iov_cursor h) refl

-- Where `iov()` has filled the whole array of iovecs and the kernel takes the whole packet at
-- once, `write_wbuf` reads the element behind the array: its behaviour is undefined.
pub write_wbuf-past_array :
    (w w1 : WriteBuffer) (bytes : List ℕ) (results : List (Option ℕ))
    → finalize w ≡ ok w1
    → gather w1.heap w1.iov w1.iov_cursor ≡ ok bytes
    → 0 < w1.iov_cursor
    → w1.iov_size ≡ w1.iov_cursor
    → write_wbuf (some (length bytes) ∷ results) w ≡ err undefined
unfolding write_wbuf write_loop skip_written
write_wbuf-past_array w w1 bytes results fin sends pos full =
    let all : pending w1.heap w1.iov 0 (w1.iov_cursor - 0) ≡ ok bytes =
      ap (pending w1.heap w1.iov 0) (omega arith)
      ∙ pending-gather w1.heap w1.iov w1.iov_cursor bytes sends in
    let beyond : skip_written (w1.iov_size - 0) w1.iov 0 (length bytes) ≡ err undefined =
      ap₂ (λ a b. skip_written a w1.iov 0 b) (omega (arith, full)) (omega arith)
      ∙ skip_written-gather w1.heap w1.iov w1.iov_cursor 0 0 bytes sends in
    rw (fin, lt→ltb 0 w1.iov_cursor pos, all, beyond) refl

-- Where the array of iovecs has one more element, left from an earlier packet and not empty, and
-- the kernel takes the whole packet at once, `write_wbuf` returns, the kernel has taken the bytes
-- that `iov()` lists, and the buffer is as `reset` leaves it.
pub write_wbuf-delivers :
    (w w1 : WriteBuffer) (bytes : List ℕ) (results : List (Option ℕ)) (stale : Iovec)
    → finalize w ≡ ok w1
    → gather w1.heap w1.iov w1.iov_cursor ≡ ok bytes
    → 0 < w1.iov_cursor
    → w1.iov_cursor < w1.iov_size
    → w1.iov w1.iov_cursor ≡ some stale
    → 0 < stale.iov_len
    → write_wbuf (some (length bytes) ∷ results) w
      ≡ ok (
        bytes,
        reset (record w1 {
          iov =
              update w1.iov w1.iov_cursor (
                some (record { iov_base = advance stale.iov_base 0; iov_len = stale.iov_len - 0 }));
        }),
      )
unfolding write_wbuf write_loop skip_written
write_wbuf-delivers w w1 bytes results stale fin sends pos more listed long =
    let n = w1.iov_cursor in
    let all : pending w1.heap w1.iov 0 (n - 0) ≡ ok bytes =
      ap (pending w1.heap w1.iov 0) (omega arith) ∙ pending-gather w1.heap w1.iov n bytes sends in
    let stops : skip_written (w1.iov_size - 0) w1.iov 0 (length bytes) ≡ ok (n, 0) =
      ap₂ (λ a b. skip_written a w1.iov 0 b) (omega arith) (omega arith)
      ∙ skip_written-gather w1.heap w1.iov n (suc (w1.iov_size - n - 1)) 0 bytes sends
      ∙ not_whole stale (w1.iov_size - n - 1) w1.iov n listed long in
    let vec : Iovec = record { iov_base = advance stale.iov_base 0; iov_len = stale.iov_len - 0 } in
    let done =
      write_loop_done results n (record w1 { iov = update w1.iov n (some vec) }) (omega arith) in
    let taken : take (length bytes) bytes ++ [] ≡ bytes = append-nil _ ∙ take_all bytes in
    rw (fin, lt→ltb 0 n pos, all, stops, listed, done)
      (ap (λ bs. ok (bs, reset (record w1 { iov = update w1.iov n (some vec) }))) taken)
