-- ===== src/ChunkCache/Runs.antt =====
-- A position at hand.
use mosss.Common.{refl, arith, false, leb, ◌+◌}
use mosss.Connection.{pos, negsuc}
use mosss.ChunkCache.{Position, request_chunks}
use mosss.ChunkCache.Diamond.{Marks, gap, request_chunks-Marks}

abbrev here : Position
here = record { x = negsuc 39; z = pos 100 }

request_chunks-Marks_example :
    Marks
      (request_chunks here (pos 2))
      (record { side = 5; cell = λ a b. false })
      (λ a b. leb (gap a 2 + gap b 2) 2)
request_chunks-Marks_example = request_chunks-Marks here 2 refl refl (omega arith)
