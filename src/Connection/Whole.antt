-- ===== src/Connection/Whole.antt =====
-- A packet in the two buffers, from its first event to its last.
pub mod Runs
use mosss.Common.{
  true, err, undefined, ℕ, ◌+◌, ◌-◌, ◌^◌, ◌≤◌, ◌<◌, ◌≡◌, refl, sym, subst, ◌∙◌, List, [], ◌∷◌, ◌++◌,
  length, length-append, append_assoc, append-nil, arith, ok, Result, leb, All,
}
use mosss.Bytes.Order.{IsByte}
use mosss.Varint.{decode}
use mosss.ReadBuffer.{ReadBuffer}
use mosss.ReadBuffer.Stream.{Stream, both}
use mosss.Connection.{reset, Connection, ready}
use mosss.Connection.Receive.{Fresh}
use mosss.Connection.Split.{joined, process_all}
use mosss.Connection.Large.{Filling, resolve_length-Filling}
use mosss.Connection.Freed.{read_chars, Second-moved}
use mosss.Connection.Second.{Second, Took, process-Second, transition_to_secondary-Second}

process_all-Second :
    (pieces : List (List ℕ)) (c : Connection) (xs ys : List ℕ) (missing : ℕ)
    → Second c xs ys missing
    → length (joined pieces) ≤ missing
    → Took (process_all pieces c) c xs (ys ++ joined pieces) (missing - length (joined pieces))
process_all-Second [] c xs ys missing p few = record {
  after = c;
  returns = refl;
  second =
      subst (λ zs. Second c xs zs (missing - 0)) (sym (append-nil ys))
        (subst (Second c xs ys) (omega arith) p);
  state = refl;
}
process_all-Second (zs ∷ pieces) c xs ys missing p few =
    let parts = length-append zs (joined pieces) in
    let m = process-Second c xs ys zs missing p (omega (arith, parts)) in
    let rest =
      process_all-Second pieces m.after xs (ys ++ zs) (missing - length zs) m.second
        (omega (arith, parts)) in
    record {
      after = rest.after;
      returns = rw m.returns rest.returns;
      second =
          subst (λ ws. Second rest.after xs ws (missing - length (zs ++ joined pieces)))
            (append_assoc ys zs (joined pieces))
            (subst (Second rest.after xs ((ys ++ zs) ++ joined pieces)) (omega (arith, parts))
              rest.second);
      state = rest.state ∙ m.state;
    }

-- `result` is a connection of which the bytes `bs` are still to be read, and `missing` bytes to come.
pub record Gathered (result : Result Connection) (c : Connection) (bs : List ℕ) (missing : ℕ)
    : Type 0 where
  pub after : Connection
  pub returns : result ≡ ok after
  pub unread : Stream after.rbuf bs
  pub complete : ready after ≡ leb missing 0
  pub state : after.state ≡ c.state

-- The events of a packet that does not fit into the primary buffer: the first one has its whole length
-- `n`, the second one fills the primary buffer, and `beyond` bytes come behind.
module _ (c : Connection) (b : ℕ) (bytes rest ys : List ℕ) (n beyond : ℕ) (pieces : List (List ℕ))
    (f : Fresh c b) (begin : c.rbuf.cursor_index ≡ 0) (known : b < c.rbuf.heap.next)
    (hb : All IsByte bytes) (d : decode 4 bytes ≡ ok (n, rest))
    (shorter : length rest ≤ length bytes)
    (large : n + (length bytes - length rest) ≡ 1024 + beyond) (more : 0 < beyond)
    (small : 1024 + beyond < 2 ^ 31) (fills : length bytes + length ys ≡ 1024)
    (part : length (joined pieces) ≤ beyond) where
  process_all-Took :
      Took
        (process_all (bytes ∷ ys ∷ pieces) c)
        c
        (rest ++ ys)
        (joined pieces)
        (beyond - length (joined pieces))
  process_all-Took =
      let one =
        resolve_length-Filling c b bytes rest n beyond f begin known hb d (omega arith) shorter
          large more small in
      let left : 1024 - length bytes ≡ length ys = omega arith in
      let two =
        transition_to_secondary-Second one.after b rest ys beyond
          (subst (λ k. Filling one.after b rest k beyond) left one.filling) in
      let last = process_all-Second pieces two.after (rest ++ ys) [] beyond two.second part in
      record {
        after = last.after;
        returns = rw (one.returns, two.returns) last.returns;
        second = last.second;
        state = last.state ∙ two.state ∙ one.state;
      }

  -- Where a packet does not fit into the primary buffer, its first event has its whole length, the
  -- second one fills the primary buffer, and the others are pieces of what comes behind, then after
  -- the last event what follows the length stands unread in the two buffers, in order, the connection
  -- is ready when no byte of the packet is missing, and its state is the one before; however what
  -- comes behind is split into events.
  pub process_all-Gathered :
      Gathered
        (process_all (bytes ∷ ys ∷ pieces) c)
        c
        ((rest ++ ys) ++ joined pieces)
        (beyond - length (joined pieces))
  unfolding ready
  process_all-Gathered =
      let t = process_all-Took in
      let s = t.second in
      record {
        after = t.after;
        returns = t.returns;
        unread = both (rest ++ ys) (joined pieces) s.index s.front s.sector refl;
        complete = rw s.allowed refl;
        state = t.state;
      }

  -- Where a packet that does not fit into the primary buffer is complete, its first event having had
  -- its whole length, and the second one having filled that buffer, the connection is ready; but once
  -- the first byte in the secondary buffer was read, `reset` has `feed` delete a pointer into the
  -- middle of a block: the behaviour is undefined.
  pub reset-freed :
      length (joined pieces) ≡ beyond
      → (after : Connection) × (r : ReadBuffer) × (process_all (bytes ∷ ys ∷ pieces) c ≡ ok after)
        × (ready after ≡ true)
        × (read_chars (length (rest ++ ys) + 1) after.rbuf ≡ ok r)
        × (reset (record after { rbuf = r }) ≡ err undefined)
  unfolding ready
  reset-freed complete =
      let t = process_all-Took in
      let s = t.second in
      let (r, reads, stuck) =
        Second-moved t.after (rest ++ ys) (joined pieces) (beyond - length (joined pieces)) s
          (omega arith) in
      (t.after, r, t.returns, rw s.allowed (ground arith), reads, stuck)
