-- ===== src/WriteBuffer/End.antt =====
-- `~WriteBuffer`: the buffer is deleted once, whatever was written, and nothing of the caller's.
use mosss.Common.{ℕ, ◌≡◌, ap, ◌∙◌, List, ok, false}
use mosss.Memory.{Memory, at, delete}
use mosss.Memory.Holds.{Holds}
use mosss.Memory.Copy.{delete-Deleted, Holds-block}
use mosss.WriteBuffer.{WriteBuffer, destruct}
use mosss.WriteBuffer.Invariant.{Inv, Foreign}

record Ended {w : WriteBuffer} {sent sector : List ℕ} (i : Inv w sent sector) : Type 0 where
  after : Memory
  returns : destruct w ≡ ok after
  gone : (after.block i.layout.block).alive ≡ false
  kept : (c o : ℕ) (xs : List ℕ) → Foreign i c → Holds w.heap (at c o) xs → Holds after (at c o) xs

-- The destructor of a buffer with any content returns; the buffer's block is gone then, and the bytes
-- of the caller are as they were.
destruct-Ended : {w : WriteBuffer} {sent sector : List ℕ} (i : Inv w sent sector) → Ended i
unfolding destruct
destruct-Ended {w} i =
    let d = delete-Deleted w.heap i.layout.block i.layout.alive in
    record {
      after = d.after;
      returns = ap (delete w.heap) i.layout.buf ∙ d.runs;
      gone = d.gone;
      kept = λ c o xs f held. Holds-block w.heap d.after c o xs (d.other c f.apart) held;
    }
