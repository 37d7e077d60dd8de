-- ===== src/Connection/Whole/Runs.antt =====
-- A packet of 1025 bytes.
use mosss.Common.{
  ℕ, zero, suc, ◌≡◌, List, length, ok, err, undefined, refl, arith, [], ◌∷◌, true, ap, ◌++◌, ◌+◌,
  All,
}
use mosss.Varint.{decode}
use mosss.Bytes.Order.{IsByte}
use mosss.ReadBuffer.Stream.{Stream}
use mosss.ReadBuffer.{ReadBuffer}
use mosss.Connection.{Connection, ready, reset}
use mosss.Connection.Split.{process_all}
use mosss.Connection.Partial.{process_event}
use mosss.Connection.Large.{resolve_length-premature}
use mosss.Connection.Whole.{Gathered, process_all-Gathered}
use mosss.Connection.Runs.{new_connection, new_connection-Fresh}
use mosss.Connection.Freed.{read_chars}
use mosss.Connection.Whole.{reset-freed}

abbrev sevens : ℕ → List ℕ
sevens zero = []
sevens (suc n) = 7 ∷ sevens n

length-sevens : (n : ℕ) → length (sevens n) ≡ n
length-sevens zero = refl
length-sevens (suc n) = ap suc (length-sevens n)

sevens-IsByte : (n : ℕ) → All IsByte (sevens n)
sevens-IsByte zero = tt
sevens-IsByte (suc n) = (omega arith, sevens-IsByte n)

-- A packet of 1025 bytes: its length, what fills the primary buffer, and the last three bytes.
process_all-Gathered_example :
    Gathered
      (process_all ((0x81 ∷ 0x08 ∷ []) ∷ sevens 1022 ∷ (1 ∷ []) ∷ (2 ∷ 3 ∷ []) ∷ []) new_connection)
      new_connection
      (sevens 1022 ++ (1 ∷ 2 ∷ 3 ∷ []))
      0
unfolding decode
process_all-Gathered_example =
    process_all-Gathered new_connection 0 (0x81 ∷ 0x08 ∷ []) [] (sevens 1022) 1025 3
      ((1 ∷ []) ∷ (2 ∷ 3 ∷ []) ∷ []) new_connection-Fresh refl (omega arith)
      (omega arith, (omega arith, tt)) refl (omega arith) (omega arith) (omega arith) (omega arith)
      (omega (arith, length-sevens 1022)) (omega arith)

-- The primary buffer is full at once.
resolve_length-premature_example :
    (after : Connection) × (process_event (0x81 ∷ 0x08 ∷ sevens 1022) new_connection ≡ ok after)
    × (ready after ≡ true)
    × Stream after.rbuf (sevens 1022)
    × (1025 ≡ length (sevens 1022) + 3)
unfolding decode
resolve_length-premature_example =
    resolve_length-premature new_connection 0 (0x81 ∷ 0x08 ∷ sevens 1022) (sevens 1022) 1025 3
      new_connection-Fresh refl (omega arith) (omega arith, (omega arith, sevens-IsByte 1022)) refl
      (omega (arith, length-sevens 1022)) (omega arith) (omega (arith, length-sevens 1022))
      (omega arith) (omega arith)

-- The packet of 1025 bytes is complete, and 1023 bytes of it are read.
reset-freed_example :
    (after : Connection) × (r : ReadBuffer) × (process_all
        ((0x81 ∷ 0x08 ∷ []) ∷ sevens 1022 ∷ (1 ∷ []) ∷ (2 ∷ 3 ∷ []) ∷ [])
        new_connection
      ≡ ok after)
    × (ready after ≡ true)
    × (read_chars (length (sevens 1022) + 1) after.rbuf ≡ ok r)
    × (reset (record after { rbuf = r }) ≡ err undefined)
unfolding decode
reset-freed_example =
    reset-freed new_connection 0 (0x81 ∷ 0x08 ∷ []) [] (sevens 1022) 1025 3
      ((1 ∷ []) ∷ (2 ∷ 3 ∷ []) ∷ []) new_connection-Fresh refl (omega arith)
      (omega arith, (omega arith, tt)) refl (omega arith) (omega arith) (omega arith) (omega arith)
      (omega (arith, length-sevens 1022)) (omega arith) refl
