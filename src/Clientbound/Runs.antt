-- ===== src/Clientbound/Runs.antt =====
-- Packets at hand: the theorems at concrete buffers and strings.
use mosss.Common.{
  ℕ, ◌-◌, ◌≡◌, refl, [], ◌∷◌, ok, err, undefined, arith, true, Option, some, none, ltb,
  if◌then◌else◌, take,
}
use mosss.Memory.{
  at, load, store, store_bytes, load_bytes, set_cell, update, in_range, retreat, distance,
}
use mosss.WriteBuffer.{
  Iovec, WriteBuffer, finalize, flush_buffer, iov_resize, write_iov, write_length, length_bytes,
  reset,
}
use mosss.WriteBuffer.Frame.{gather}
use mosss.Clientbound.{write_wbuf}
use mosss.Clientbound.Delivery.{write_wbuf-past_array}
use mosss.Clientbound.Rounds.{took}
use mosss.Clientbound.Partial.{write_wbuf-took, write_wbuf-drops}

-- A buffer with the byte 7 in its sector, and one iovec.
abbrev finishing : WriteBuffer
finishing = record {
  heap = record { next = 1; block = λ b. record { size = 21; alive = true; cells = λ o. some 7 } };
  iov_size = 1;
  iov = λ i. none;
  iov_cursor = 0;
  packet_length = 0;
  buf = at 0 0;
  end = at 0 21;
  sector_start = at 0 5;
  cursor = at 0 6;
}

abbrev resized_iov : ℕ → Option Iovec
resized_iov i = if ltb i 1 then none else none

abbrev finished : WriteBuffer
finished = record finishing {
  heap = set_cell finishing.heap 0 4 (some 1);
  iov =
      update (update resized_iov 0 (some (record { iov_base = at 0 5; iov_len = 1 }))) 0
        (some (record { iov_base = at 0 4; iov_len = 2 }));
  iov_cursor = 1;
  packet_length = 1;
  sector_start = at 0 6;
}

finishing-finalize : finalize finishing ≡ ok finished
unfolding finalize flush_buffer iov_resize write_iov write_length length_bytes distance retreat
    store_bytes store in_range set_cell update
finishing-finalize = refl

finished-gather : gather finished.heap finished.iov 1 ≡ ok (1 ∷ 7 ∷ [])
unfolding gather load_bytes load in_range set_cell update
finished-gather = refl

write_wbuf-past_array_example : write_wbuf (some 2 ∷ []) finishing ≡ err undefined
write_wbuf-past_array_example =
    write_wbuf-past_array finishing finished (1 ∷ 7 ∷ []) [] finishing-finalize finished-gather
      (omega arith) refl

-- The same with a second iovec from an earlier packet.
abbrev stale : Iovec
stale = record { iov_base = at 0 5; iov_len = 3 }

abbrev used_before : WriteBuffer
used_before = record finishing { iov_size = 2; iov = λ i. some stale }

abbrev used_finished : WriteBuffer
used_finished = record used_before {
  heap = set_cell finishing.heap 0 4 (some 1);
  iov =
      update (update (λ i. some stale) 0 (some (record { iov_base = at 0 5; iov_len = 1 }))) 0
        (some (record { iov_base = at 0 4; iov_len = 2 }));
  iov_cursor = 1;
  packet_length = 1;
  sector_start = at 0 6;
}

used-finalize : finalize used_before ≡ ok used_finished
unfolding finalize flush_buffer iov_resize write_iov write_length length_bytes distance retreat
    store_bytes store in_range set_cell update
used-finalize = refl

used-gather : gather used_finished.heap used_finished.iov 1 ≡ ok (1 ∷ 7 ∷ [])
unfolding gather load_bytes load in_range set_cell update
used-gather = refl

stale_behind : used_finished.iov 1 ≡ some stale
unfolding update
stale_behind = refl

-- The kernel takes one byte and then the other.
write_wbuf-took_example :
    (iov : ℕ → Option Iovec) × (write_wbuf (took (1 ∷ []) (some (2 - 1) ∷ [])) used_before
      ≡ ok (1 ∷ 7 ∷ [], reset (record used_finished { iov = iov })))
write_wbuf-took_example =
    write_wbuf-took used_before used_finished (1 ∷ 7 ∷ []) (1 ∷ []) [] stale used-finalize
      used-gather (omega arith) (omega arith) stale_behind (omega arith) (omega arith)

-- The kernel takes one byte, and the next call fails.
write_wbuf-drops_example :
    (iov : ℕ → Option Iovec) × (write_wbuf (took (1 ∷ []) (none ∷ [])) finishing
      ≡ ok (take 1 (1 ∷ 7 ∷ []), reset (record finished { iov = iov })))
write_wbuf-drops_example =
    write_wbuf-drops finishing finished (1 ∷ 7 ∷ []) (1 ∷ []) [] finishing-finalize finished-gather
      (omega arith) (omega arith) (omega arith)
