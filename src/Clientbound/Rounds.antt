-- ===== src/Clientbound/Rounds.antt =====
-- The rounds of the loop of `write_wbuf`: calls of `writev` that each take a part of what is left.
use mosss.Common.{
  ℕ, zero, suc, ◌+◌, ◌-◌, ◌≤◌, ◌<◌, ◌≡◌, refl, sym, ap, ap₂, subst, ◌∙◌, List, [], ◌∷◌, ◌++◌,
  length, arith, ok, Option, some, lt→ltb, take, drop, append_assoc, append-nil, length-drop,
  ok_injective,
}
use mosss.Memory.{Memory, update}
use mosss.Memory.Copy.{update_ne}
use mosss.WriteBuffer.{Iovec, WriteBuffer}
use mosss.Clientbound.{pending, skip_written, write_loop}
use mosss.Clientbound.Delivery.{not_whole, take_all, write_loop_done}
use mosss.Clientbound.Splits.{pending-Short, shortened, pending-Headed, skip_written-past}

-- The sum of what the calls took.
abbrev pub bytes_taken : List ℕ → ℕ
bytes_taken [] = 0
bytes_taken (r ∷ rs) = r + bytes_taken rs

-- The results of calls that took `rs` bytes, with `results` after them.
abbrev pub took : List ℕ → List (Option ℕ) → List (Option ℕ)
took [] results = results
took (r ∷ rs) results = some r ∷ took rs results

-- The iovecs from `k` on are those of the bytes `bs`, which the array holds.
pub record Standing (w : WriteBuffer) (iov : ℕ → Option Iovec) (k : ℕ) (bs : List ℕ) : Type 0 where
  pub lists : pending w.heap iov k (w.iov_cursor - k) ≡ ok bs
  pub inside : k < w.iov_cursor
  pub spare : w.iov_cursor ≤ w.iov_size
  pub behind : (i : ℕ) → w.iov_cursor ≤ i → iov i ≡ w.iov i

-- One call that takes less than all.
record ShortCall (w : WriteBuffer) (iov : ℕ → Option Iovec) (k r : ℕ) (bs : List ℕ) : Type 0 where
  next : ℕ
  cut : ℕ → Option Iovec
  stands : Standing w cut next (drop r bs)
  goes_on :
      (results : List (Option ℕ)) (taken : List ℕ) (w2 : WriteBuffer)
      → write_loop results next (record w { iov = cut }) ≡ ok (taken, w2)
      → write_loop (some r ∷ results) k (record w { iov = iov }) ≡ ok (take r bs ++ taken, w2)

one_call :
    (w : WriteBuffer) (iov : ℕ → Option Iovec) (k r : ℕ) (bs : List ℕ)
    → Standing w iov k bs
    → r < length bs
    → ShortCall w iov k r bs
unfolding write_loop
one_call w iov k r bs st few =
    let n = w.iov_cursor - k in
    let s = pending-Short n w.heap iov k (w.iov_size - w.iov_cursor) r bs st.lists few in
    let whole : w.iov_size - k ≡ n + (w.iov_size - w.iov_cursor) =
      omega (arith, st.inside, st.spare) in
    let skips : skip_written (w.iov_size - k) iov k r ≡ ok (s.here, s.of_it) =
      ap (λ a. skip_written a iov k r) whole ∙ s.skips in
    let left : w.iov_cursor - s.here ≡ k + n - s.here = omega (arith, st.inside) in
    let cut = update iov s.here (some (shortened s.vec s.of_it)) in
    record {
      next = s.here;
      cut = cut;
      stands = record {
        lists = ap (pending w.heap cut s.here) left ∙ s.others;
        inside = omega (arith, s.before, st.inside);
        spare = st.spare;
        behind =
            λ i h. update_ne iov s.here i _ (omega (arith, s.before, st.inside)) ∙ st.behind i h;
      };
      goes_on = λ results taken w2 h.
          rw (lt→ltb k w.iov_cursor st.inside, st.lists, skips, s.listed, h) refl;
    }

take-nil : (s : ℕ) → take {A = ℕ} s [] ≡ []
take-nil zero = refl
take-nil (suc s) = refl

take-add : (r s : ℕ) (xs : List ℕ) → take (r + s) xs ≡ take r xs ++ take s (drop r xs)
take-add zero s xs = ap (λ n. take n xs) (omega arith)
take-add (suc r) s [] = take-nil (suc r + s) ∙ sym (take-nil s)
take-add (suc r) s (x ∷ xs) =
    let next : suc r + s ≡ suc (r + s) = omega arith in
    ap (λ n. take n (x ∷ xs)) next ∙ ap (λ ys. x ∷ ys) (take-add r s xs)

drop_nil : (n : ℕ) → drop {A = ℕ} n [] ≡ []
drop_nil zero = refl
drop_nil (suc n) = refl

drop_add : (r s : ℕ) (xs : List ℕ) → drop s (drop r xs) ≡ drop (r + s) xs
drop_add zero s xs = ap (λ n. drop n xs) (omega arith)
drop_add (suc r) s [] = drop_nil s ∙ sym (drop_nil (suc r + s))
drop_add (suc r) s (x ∷ xs) =
    let next : suc r + s ≡ suc (r + s) = omega arith in
    drop_add r s xs ∙ ap (λ n. drop n (x ∷ xs)) (sym next)

-- Calls that together take less than all.
pub record Progress (w : WriteBuffer) (iov : ℕ → Option Iovec) (k : ℕ) (rs bs : List ℕ)
    : Type 0 where
  pub next : ℕ
  pub cut : ℕ → Option Iovec
  pub stands : Standing w cut next (drop (bytes_taken rs) bs)
  pub goes_on :
      (results : List (Option ℕ)) (taken : List ℕ) (w2 : WriteBuffer)
      → write_loop results next (record w { iov = cut }) ≡ ok (taken, w2)
      → write_loop (took rs results) k (record w { iov = iov })
        ≡ ok (take (bytes_taken rs) bs ++ taken, w2)

pub write_loop-took :
    (rs : List ℕ) (w : WriteBuffer) (iov : ℕ → Option Iovec) (k : ℕ) (bs : List ℕ)
    → Standing w iov k bs
    → bytes_taken rs < length bs
    → Progress w iov k rs bs
write_loop-took [] w iov k bs st few = record {
  next = k;
  cut = iov;
  stands = st;
  goes_on = λ results taken w2 h. h;
}
write_loop-took (r ∷ rs) w iov k bs st few =
    let one = one_call w iov k r bs st (omega (arith, few)) in
    let left : bytes_taken rs < length (drop r bs) = omega (arith, length-drop r bs, few) in
    let more = write_loop-took rs w one.cut one.next (drop r bs) one.stands left in
    record {
      next = more.next;
      cut = more.cut;
      stands = subst (Standing w more.cut more.next) (drop_add r (bytes_taken rs) bs) more.stands;
      goes_on = λ results taken w2 h.
          one.goes_on (took rs results) (take (bytes_taken rs) (drop r bs) ++ taken) w2
            (more.goes_on results taken w2 h)
          ∙ ap (λ ys. ok (ys, w2))
              (sym (append_assoc (take r bs) (take (bytes_taken rs) (drop r bs)) taken)
                ∙ ap (λ ys. ys ++ taken) (sym (take-add r (bytes_taken rs) bs)));
    }

-- All that is left is skipped, one iovec after the other.
skip_written-pending :
    (n : ℕ) (m : Memory) (iov : ℕ → Option Iovec) (k left : ℕ) (bs : List ℕ)
    → pending m iov k n ≡ ok bs
    → skip_written (n + left) iov k (length bs) ≡ skip_written left iov (k + n) 0
unfolding pending
skip_written-pending zero m iov k left bs h =
    ap₂ (λ a b. skip_written a iov b (length bs)) (omega arith) (omega arith)
    ∙ ap (skip_written left iov (k + 0)) (sym (ap length (ok_injective h)))
skip_written-pending (suc n) m iov k left bs h =
    let f = pending-Headed n m iov k bs h in
    ap (λ a. skip_written a iov k (length bs)) (omega arith)
    ∙ skip_written-past (n + left) iov k (length bs) f.vec f.listed (ground (arith, f.total))
    ∙ ap (skip_written (n + left) iov (k + 1)) (omega (arith, f.total))
    ∙ skip_written-pending n m iov (k + 1) left f.rest f.further
    ∙ ap (λ a. skip_written left iov a 0) (omega arith)

-- The last call takes all that is left.
pub last_call :
    (w : WriteBuffer) (iov : ℕ → Option Iovec) (k : ℕ) (bs : List ℕ) (results : List (Option ℕ))
    (stale : Iovec)
    → Standing w iov k bs
    → w.iov_cursor < w.iov_size
    → w.iov w.iov_cursor ≡ some stale
    → 0 < stale.iov_len
    → write_loop (some (length bs) ∷ results) k (record w { iov = iov })
      ≡ ok (bs, record w { iov = update iov w.iov_cursor (some (shortened stale 0)) })
unfolding write_loop
last_call w iov k bs results stale st more listed long =
    let c = w.iov_cursor in
    let n = c - k in
    let here : iov c ≡ some stale = st.behind c (omega arith) ∙ listed in
    let room : w.iov_size - k ≡ n + suc (w.iov_size - c - 1) = omega (arith, st.inside, more) in
    let stops : skip_written (w.iov_size - k) iov k (length bs) ≡ ok (c, 0) =
      ap (λ a. skip_written a iov k (length bs)) room
      ∙ skip_written-pending n w.heap iov k (suc (w.iov_size - c - 1)) bs st.lists
      ∙ ap (λ a. skip_written (suc (w.iov_size - c - 1)) iov a 0) (omega (arith, st.inside))
      ∙ not_whole stale (w.iov_size - c - 1) iov c here long in
    let cut = update iov c (some (shortened stale 0)) in
    let done = write_loop_done results c (record w { iov = cut }) (omega arith) in
    rw (lt→ltb k c st.inside, st.lists, stops, here, done)
      (ap (λ ys. ok (ys, record w { iov = cut })) (append-nil _ ∙ take_all bs))
