-- ===== src/Connection/Overflow.antt =====
-- Where `recv` may write past the end of the primary buffer.
use mosss.Common.{
  ℕ, ◌+◌, ◌≤◌, ◌<◌, ◌≡◌, refl, ap, ◌∙◌, List, [], ◌∷◌, length, ok, err, undefined, arith, true,
  false, some, inl, inr, Bool-cases,
}
use mosss.Memory.{at, Memory, in_range, store, set_cell, store_bytes}
use mosss.Memory.Holds.{Room, set_cell-Frame, store_lem, store_bytes-Stored}
use mosss.ReadBuffer.{ReadBuffer}
use mosss.Connection.{
  Connection, pos, leb_ℤ, received, take_in, process, run_handler, Handler, resolve_length_handler,
  transition_to_secondary_handler, copy_to_buffer_handler, resolve_length, transition_to_secondary,
  copy_to_buffer,
}

in_range_lt : (m : Memory) (b o : ℕ) → in_range m b o ≡ true → o < (m.block b).size
unfolding in_range
in_range_lt m b o h = ground (arith, h)

-- Storing past the end of a block is undefined.
store_bytes_past :
    (m : Memory) (b o : ℕ) (xs : List ℕ)
    → o ≤ (m.block b).size
    → (m.block b).size < o + length xs
    → store_bytes m (at b o) xs ≡ err undefined
unfolding store_bytes store
store_bytes_past m b o [] before past = absurd (omega arith)
store_bytes_past m b o (x ∷ xs) before past = elim (Bool-cases (in_range m b o)) [
  | inl inside ↦
      let first = store_lem m b o x (
        unfold in_range in
        record { alive = ground (arith, inside); fits = ground (arith, inside) }) in
      let f = set_cell-Frame m b o x in
      rw
        (
          first.0,
          store_bytes_past (set_cell m b o (some x)) b (o + 1) xs
              (omega (arith, f.size b, in_range_lt m b o inside)) (omega (arith, f.size b)),
        )
        refl
  | inr outside ↦ rw outside refl
]

-- A connection that receives into the primary buffer, which is block `b`, at offset `p`.
pub record Receiving (c : Connection) (b p : ℕ) : Type 0 where
  pub first : c.at_secondary ≡ false
  pub end : c.rbuf.iv0.end ≡ at b p
  pub inside : p ≤ 1024
  pub room : Room c.rbuf.heap b 0 1024
  pub size : (c.rbuf.heap.block b).size ≡ 1024

take_in_past :
    (c : Connection) (b p : ℕ) (bytes : List ℕ)
    → Receiving c b p
    → 1024 < p + length bytes
    → take_in bytes c ≡ err undefined
unfolding take_in
take_in_past c b p bytes r past =
    rw
      (
        r.first,
        r.end,
        store_bytes_past c.rbuf.heap b p bytes (omega (arith, r.size, r.inside))
            (omega (arith, r.size)),
      )
      refl

take_in_part :
    (c : Connection) (b p : ℕ) (bytes : List ℕ)
    → Receiving c b p
    → p + length bytes ≤ 1024
    → (rbuf : ReadBuffer) × (take_in bytes c ≡ ok (record c { rbuf = rbuf }))
      × Receiving (record c { rbuf = rbuf }) b (p + length bytes)
unfolding take_in
take_in_part c b p bytes r fits =
    let stored =
      store_bytes-Stored c.rbuf.heap b p bytes
        (record { alive = r.room.alive; fits = omega (arith, r.size) }) in
    (
      record c.rbuf {
        heap = stored.after;
        iv0 = record c.rbuf.iv0 { end = at b (p + length bytes) };
      },
      rw (r.first, r.end, stored.runs) refl,
      record {
        first = r.first;
        end = refl;
        inside = fits;
        room = record {
          alive = stored.frame.alive b ∙ r.room.alive;
          fits = omega (arith, stored.frame.size b, r.size);
        };
        size = stored.frame.size b ∙ r.size;
      },
    )

-- Whatever handler is waiting: bytes that do not fit are written past the buffer.
handler_past :
    (h : Handler) (c : Connection) (bytes : List ℕ)
    → take_in bytes c ≡ err undefined
    → run_handler h (received bytes) c ≡ err undefined
unfolding resolve_length transition_to_secondary copy_to_buffer
handler_past resolve_length_handler c bytes stuck = rw stuck refl
handler_past transition_to_secondary_handler c bytes stuck = rw stuck refl
handler_past copy_to_buffer_handler c bytes stuck = rw stuck refl

pub process_past :
    (c : Connection) (b p : ℕ) (bytes : List ℕ)
    → Receiving c b p
    → 1024 < p + length bytes
    → process (received bytes) c ≡ err undefined
unfolding process
process_past c b p bytes r past =
    handler_past c.process_events c bytes (take_in_past c b p bytes r past)

-- Where a packet does not fit into the primary buffer and the next `recv` takes only a part of what
-- is allowed, as much is allowed as before: where the one after it takes all of that, it writes
-- past the end of the buffer, which is undefined.
pub transition-overflow :
    (c : Connection) (b p allowed : ℕ) (some_bytes bytes : List ℕ)
    → Receiving c b p
    → c.process_events ≡ transition_to_secondary_handler
    → c.bytes_allowed ≡ pos allowed
    → p + allowed ≡ 1024
    → 0 < length some_bytes
    → length some_bytes < allowed
    → length bytes ≡ allowed
    → (after : Connection) × (process (received some_bytes) c ≡ ok (some after))
      × (after.bytes_allowed ≡ pos allowed)
      × (process (received bytes) after ≡ err undefined)
unfolding process transition_to_secondary
transition-overflow c b p allowed some_bytes bytes r events room_left whole more part all =
    let (rbuf, took, next) = take_in_part c b p some_bytes r (omega arith) in
    let after = record c { rbuf = rbuf } in
    let waits : leb_ℤ c.bytes_allowed (length some_bytes) ≡ false =
      ap (λ z. leb_ℤ z (length some_bytes)) room_left ∙ ground arith in
    (
      after,
      ap (λ h. run_handler h (received some_bytes) c) events ∙ rw (took, waits) refl,
      room_left,
      process_past after b (p + length some_bytes) bytes next (omega arith),
    )
