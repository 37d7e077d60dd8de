-- ===== src/Connection/Split.antt =====
-- A packet that comes in as more than one event: `resolve_length`, then `copy_to_buffer`.
use mosss.Common.{
  ℕ, ◌+◌, ◌-◌, ◌≤◌, ◌≡◌, refl, sym, ap, subst, ◌∙◌, List, [], ◌∷◌, ◌++◌, length, length-append,
  append_assoc, append-nil, arith, Result, ok, ◌>>=◌, leb, All,
}
use mosss.Bytes.Order.{IsByte}
use mosss.Varint.{decode}
use mosss.Connection.{Connection, ready}
use mosss.Connection.Receive.{Fresh}
use mosss.Connection.Partial.{
  Partial, process_event, ready-Partial, process-Partial, resolve_length-Step,
}

-- The bytes of several events.
abbrev pub joined : List (List ℕ) → List ℕ
joined [] = []
joined (xs ∷ pieces) = xs ++ joined pieces

-- One event after the other, for the connection that the last one left.
abbrev pub process_all : List (List ℕ) → Connection → Result Connection
process_all [] c = ok c
process_all (xs ∷ pieces) c = do c1 ← process_event xs c; process_all pieces c1

-- `result` is a connection that differs from `c` in the bytes `xs` that it has.
pub record Collected (result : Result Connection) (c : Connection) (xs : List ℕ) (missing : ℕ)
    : Type 0 where
  pub after : Connection
  pub returns : result ≡ ok after
  pub partial : Partial after xs missing
  pub complete : ready after ≡ leb missing 0
  pub state : after.state ≡ c.state
  pub index : after.rbuf.cursor_index ≡ c.rbuf.cursor_index

process_all-Partial :
    (pieces : List (List ℕ)) (c : Connection) (xs : List ℕ) (missing : ℕ)
    → Partial c xs missing
    → length (joined pieces) ≤ missing
    → Collected (process_all pieces c) c (xs ++ joined pieces) (missing - length (joined pieces))
process_all-Partial [] c xs missing p few = record {
  after = c;
  returns = refl;
  partial =
      subst (λ ys. Partial c ys (missing - 0)) (sym (append-nil xs))
        (subst (Partial c xs) (omega arith) p);
  complete = ready-Partial c xs missing p ∙ ap (λ n. leb n 0) (omega arith);
  state = refl;
  index = refl;
}
process_all-Partial (ys ∷ pieces) c xs missing p few =
    let both = length-append ys (joined pieces) in
    let m = process-Partial c xs ys missing p (omega (arith, both)) in
    let rest =
      process_all-Partial pieces m.after (xs ++ ys) (missing - length ys) m.partial
        (omega (arith, both)) in
    record {
      after = rest.after;
      returns = rw m.returns rest.returns;
      partial =
          subst (λ zs. Partial rest.after zs (missing - length (ys ++ joined pieces)))
            (append_assoc xs ys (joined pieces))
            (subst (Partial rest.after ((xs ++ ys) ++ joined pieces)) (omega (arith, both))
              rest.partial);
      complete = rest.complete ∙ ap (λ n. leb n 0) (omega (arith, both));
      state = rest.state ∙ m.state;
      index = rest.index ∙ m.index;
    }

-- Where the events of a connection that waits for a packet are pieces of one packet, the first of
-- them with the whole length `n`, and the packet fits into the primary buffer, then after the last
-- event what follows the length stands unread in the buffer, the connection waits for the bytes
-- that are missing and is ready when none is, and its state is the one before; however the bytes
-- are split into events.
pub process_all-Collected :
    (c : Connection) (b : ℕ) (bytes rest : List ℕ) (n : ℕ) (pieces : List (List ℕ))
    → Fresh c b
    → All IsByte bytes
    → decode 4 bytes ≡ ok (n, rest)
    → length rest ≤ length bytes
    → n + (length bytes - length rest) ≤ 1024
    → length (rest ++ joined pieces) ≤ n
    → Collected
        (process_all (bytes ∷ pieces) c)
        c
        (rest ++ joined pieces)
        (n - length (rest ++ joined pieces))
process_all-Collected c b bytes rest n pieces f hb d shorter small part =
    let both = length-append rest (joined pieces) in
    let k = resolve_length-Step c b bytes rest n f hb d shorter small (omega (arith, both)) in
    let m =
      process_all-Partial pieces k.after rest (n - length rest) k.partial (omega (arith, both)) in
    record {
      after = m.after;
      returns = rw k.returns m.returns;
      partial = subst (Partial m.after (rest ++ joined pieces)) (omega (arith, both)) m.partial;
      complete = m.complete ∙ ap (λ n. leb n 0) (omega (arith, both));
      state = m.state ∙ k.state;
      index = m.index ∙ k.index;
    }
