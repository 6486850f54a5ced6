-- ===== src/Flex/Examples.antt =====
-- The theorems about arrays and streams at concrete ones.
use libtwilight.Prelude.{ℕ, arith}
use libtwilight.Prelude.Int.{pos}
use libtwilight.Flex.{grow}
use libtwilight.Flex.Append.{Grows, grow-le}

grow-le_example : (k : ℕ) × Grows 200 64 k (grow 200 200 (pos 64))
grow-le_example = grow-le 200 64 (omega arith) (omega arith)
