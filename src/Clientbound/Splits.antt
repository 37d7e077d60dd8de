-- ===== src/Clientbound/Splits.antt =====
-- `write_wbuf` where the kernel takes a packet in more than one call of `writev`.
use mosss.Common.{
  ℕ, zero, suc, ◌+◌, ◌-◌, ◌≤◌, ◌<◌, ◌≡◌, refl, sym, ap, ap₂, ◌∙◌, List, [], ◌∷◌, ◌++◌, length,
  arith, ok, Option, some, >>=-eq-ok, ok_injective, leb, drop, length-append, true, false,
  Bool-cases, inl, inr,
}
use mosss.Memory.{Memory, Pointer, load, load_bytes, update, advance}
use mosss.Memory.Holds.{advance-zero, advance-suc}
use mosss.Memory.Copy.{update_self, update_ne}
use mosss.WriteBuffer.{Iovec, first_iov}
use mosss.Clientbound.{pending, skip_written}
use mosss.Clientbound.Delivery.{length-load_bytes, pending-cons, first_iov_lem}

load_bytes-drop :
    (r n : ℕ) (m : Memory) (p : Pointer) (xs : List ℕ)
    → r ≤ n
    → load_bytes m p n ≡ ok xs
    → load_bytes m (advance p r) (n - r) ≡ ok (drop r xs)
unfolding load_bytes
load_bytes-drop zero n m p xs le h = ap₂ (load_bytes m) (advance-zero p) (omega arith) ∙ h
load_bytes-drop (suc r) zero m p xs le h = absurd (omega arith)
load_bytes-drop (suc r) (suc n) m p xs le h =
    let (x, one, h1) = >>=-eq-ok (load m p) _ h in
    let (rest, more, h2) = >>=-eq-ok (load_bytes m (advance p 1) n) _ h1 in
    let whole : x ∷ rest ≡ xs = ok_injective h2 in
    ap₂ (load_bytes m) (sym (advance-suc p r)) (omega arith)
    ∙ load_bytes-drop r n m (advance p 1) rest (omega arith) more
    ∙ ap (λ ys. ok (drop (suc r) ys)) whole

drop_within : (r : ℕ) (xs ys : List ℕ) → r ≤ length xs → drop r (xs ++ ys) ≡ drop r xs ++ ys
drop_within zero xs ys h = refl
drop_within (suc r) [] ys h = absurd (omega arith)
drop_within (suc r) (x ∷ xs) ys h = drop_within r xs ys (omega arith)

drop_past : (r : ℕ) (xs ys : List ℕ) → length xs ≤ r → drop r (xs ++ ys) ≡ drop (r - length xs) ys
drop_past r [] ys h = ap (λ n. drop n ys) (omega arith)
drop_past zero (x ∷ xs) ys h = absurd (omega arith)
drop_past (suc r) (x ∷ xs) ys h =
    drop_past r xs ys (omega arith) ∙ ap (λ n. drop n ys) (omega arith)

pending-agree :
    (n : ℕ) (m : Memory) (iov iov' : ℕ → Option Iovec) (k : ℕ)
    → ((i : ℕ) → k ≤ i → iov' i ≡ iov i)
    → pending m iov' k n ≡ pending m iov k n
unfolding pending
pending-agree zero m iov iov' k same = refl
pending-agree (suc n) m iov iov' k same =
    rw (same k (omega arith), pending-agree n m iov iov' (k + 1) (λ i h. same i (omega arith))) refl

-- What is left of an iovec of which `r` bytes were written.
abbrev pub shortened : Iovec → ℕ → Iovec
shortened vec r = record { iov_base = advance vec.iov_base r; iov_len = vec.iov_len - r }

-- The kernel took `res` of the bytes `bs` of the `n` iovecs from `k` on.
pub record Short (m : Memory) (iov : ℕ → Option Iovec) (k n left res : ℕ) (bs : List ℕ)
    : Type 0 where
  pub here : ℕ
  pub of_it : ℕ
  pub vec : Iovec
  pub skips : skip_written (n + left) iov k res ≡ ok (here, of_it)
  pub listed : iov here ≡ some vec
  pub from : k ≤ here
  pub before : here < k + n
  pub others :
      pending m (update iov here (some (shortened vec of_it))) here (k + n - here)
      ≡ ok (drop res bs)

pub skip_written-past :
    (left : ℕ) (iov : ℕ → Option Iovec) (k res : ℕ) (vec : Iovec)
    → iov k ≡ some vec
    → leb vec.iov_len res ≡ true
    → skip_written (suc left) iov k res ≡ skip_written left iov (k + 1) (res - vec.iov_len)
unfolding skip_written
skip_written-past left iov k res vec listed past = rw (listed, past) refl

skip_written-within :
    (left : ℕ) (iov : ℕ → Option Iovec) (k res : ℕ) (vec : Iovec)
    → iov k ≡ some vec
    → leb vec.iov_len res ≡ false
    → skip_written (suc left) iov k res ≡ ok (k, res)
unfolding skip_written
skip_written-within left iov k res vec listed within = rw (listed, within) refl

first_iov-some : (v : Option Iovec) (vec : Iovec) → v ≡ some vec → first_iov v ≡ ok vec
first_iov-some v vec h = ap first_iov h

-- The iovecs from `k` on, the first one apart.
pub record Headed (m : Memory) (iov : ℕ → Option Iovec) (k n : ℕ) (bs : List ℕ) : Type 0 where
  pub vec : Iovec
  pub front : List ℕ
  pub rest : List ℕ
  pub listed : iov k ≡ some vec
  pub loaded : load_bytes m vec.iov_base vec.iov_len ≡ ok front
  pub size : length front ≡ vec.iov_len
  pub further : pending m iov (k + 1) n ≡ ok rest
  pub whole : front ++ rest ≡ bs
  pub total : vec.iov_len + length rest ≡ length bs

pub pending-Headed :
    (n : ℕ) (m : Memory) (iov : ℕ → Option Iovec) (k : ℕ) (bs : List ℕ)
    → pending m iov k (suc n) ≡ ok bs
    → Headed m iov k n bs
unfolding pending
pending-Headed n m iov k bs h =
    let (vec, one, h1) = >>=-eq-ok (first_iov (iov k)) _ h in
    let (xs, two, h2) = >>=-eq-ok (load_bytes m vec.iov_base vec.iov_len) _ h1 in
    let (rest, three, h3) = >>=-eq-ok (pending m iov (k + 1) n) _ h2 in
    let whole : xs ++ rest ≡ bs = ok_injective h3 in
    let size = length-load_bytes m vec.iov_base vec.iov_len xs two in
    record {
      vec = vec;
      front = xs;
      rest = rest;
      listed = first_iov_lem (iov k) vec one;
      loaded = two;
      size = size;
      further = three;
      whole = whole;
      total = ap (λ a. a + length rest) (sym size) ∙ sym (length-append xs rest) ∙ ap length whole;
    }

Short-past :
    (n : ℕ) (m : Memory) (iov : ℕ → Option Iovec) (k left res : ℕ) (bs : List ℕ)
    (f : Headed m iov k n bs)
    → leb f.vec.iov_len res ≡ true
    → Short m iov (k + 1) n left (res - f.vec.iov_len) f.rest
    → Short m iov k (suc n) left res bs
Short-past n m iov k left res bs f past s = record {
  here = s.here;
  of_it = s.of_it;
  vec = s.vec;
  skips =
      ap (λ a. skip_written a iov k res) (omega arith)
      ∙ skip_written-past (n + left) iov k res f.vec f.listed past
      ∙ s.skips;
  listed = s.listed;
  from = omega (arith, s.from);
  before = omega (arith, s.before);
  others =
      ap (pending m (update iov s.here (some (shortened s.vec s.of_it))) s.here) (omega arith)
      ∙ s.others
      ∙ ap ok (
          ap (λ a. drop (res - a) f.rest) (sym f.size)
          ∙ sym (drop_past res f.front f.rest (ground (arith, past, f.size)))
          ∙ ap (drop res) f.whole);
}

Short-within :
    (n : ℕ) (m : Memory) (iov : ℕ → Option Iovec) (k left res : ℕ) (bs : List ℕ)
    (f : Headed m iov k n bs)
    → leb f.vec.iov_len res ≡ false
    → Short m iov k (suc n) left res bs
Short-within n m iov k left res bs f within =
    let some_left : res ≤ f.vec.iov_len = ground (arith, within) in
    let cut = shortened f.vec res in
    let after = update iov k (some cut) in
    record {
      here = k;
      of_it = res;
      vec = f.vec;
      skips =
          ap (λ a. skip_written a iov k res) (omega arith)
          ∙ skip_written-within (n + left) iov k res f.vec f.listed within;
      listed = f.listed;
      from = omega arith;
      before = omega arith;
      others =
          ap (pending m after k) (omega arith)
          ∙ pending-cons m after k n cut (drop res f.front) f.rest
              (first_iov-some (after k) cut (update_self iov k (some cut)))
              (load_bytes-drop res f.vec.iov_len m f.vec.iov_base f.front some_left f.loaded)
              (pending-agree n m iov after (k + 1)
                  (λ i h. update_ne iov k i (some cut) (omega arith))
                ∙ f.further)
          ∙ ap ok (
              sym (drop_within res f.front f.rest (omega (arith, f.size, some_left)))
              ∙ ap (drop res) f.whole);
    }

pub pending-Short :
    (n : ℕ) (m : Memory) (iov : ℕ → Option Iovec) (k left res : ℕ) (bs : List ℕ)
    → pending m iov k n ≡ ok bs
    → res < length bs
    → Short m iov k n left res bs
unfolding pending
pending-Short zero m iov k left res bs h few = absurd (omega (arith, ap length (ok_injective h)))
pending-Short (suc n) m iov k left res bs h few =
    let f = pending-Headed n m iov k bs h in
    elim (Bool-cases (leb f.vec.iov_len res)) [
      | inl past ↦ Short-past n m iov k left res bs f past (
          pending-Short n m iov (k + 1) left (res - f.vec.iov_len) f.rest f.further
            (ground (arith, past, f.total)))
      | inr within ↦ Short-within n m iov k left res bs f within
    ]
