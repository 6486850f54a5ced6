-- ===== src/Double/Text/Examples.antt =====
-- Runs of TW_WriteDouble.
use libtwilight.Prelude.{ℕ, ◌+◌, ◌*◌, ◌^◌, ◌≤◌, ◌≡◌, refl, arith, List, ◌++◌, length, take, codes}
use libtwilight.Double.{digits_of}
use libtwilight.Double.Channel.{IsTotal}
use libtwilight.Double.Interval.{interval}
use libtwilight.Double.Exact.{digits_of-IsTotal}
use libtwilight.Double.Text.{write_double, sign_of, at_least_one}
use libtwilight.Double.Text.Reading.{IsDecimal}
use libtwilight.Double.Text.Decimal.{nearest}
use libtwilight.Double.Text.Number.{steps_of, write_double-IsDecimal, length-write_double}

-- 3.14159: the digit behind the third is 5, so 3.141 is written.
pi : write_double 100 1 3 0x400921F9F01B866E ≡ codes "3.141"
unfolding write_double
pi = refl

-- -0.1.
tenth : write_double 100 3 6 0xBFB999999999999A ≡ codes "-000.100000"
unfolding write_double
tenth = refl

-- 2.5e20 in a buffer of 8 bytes.
large : write_double 8 1 2 0x442B1AE4D6E2EF50 ≡ codes "25000000"
unfolding write_double
large = refl

-- The least subnormal double, and an infinity.
subnormal : write_double 100 1 3 1 ≡ codes "0.000"
unfolding write_double
subnormal = refl

infinite : write_double 100 1 3 0xFFF0000000000000 ≡ codes "-inf"
unfolding write_double
infinite = refl

digits_of-IsTotal_example :
    IsTotal (digits_of 1024 0x921F9F01B866E) ((2 ^ 52 + 0x921F9F01B866E) * interval 1024)
digits_of-IsTotal_example =
    digits_of-IsTotal 1024 0x921F9F01B866E (omega arith) (omega arith) (omega arith)

write_double-IsDecimal_example :
    (text : List ℕ) × (write_double 100 1 3 0xC00921F9F01B866E
      ≡ take 100 (sign_of 0xC00921F9F01B866E ++ text))
    × IsDecimal (at_least_one 1) 3 (nearest 3 (steps_of 0xC00921F9F01B866E)) text
write_double-IsDecimal_example =
    write_double-IsDecimal 100 1 3 0xC00921F9F01B866E (omega arith) (omega arith) (omega arith)
      (omega arith)

length-write_double_example : length (write_double 8 1 2 0x442B1AE4D6E2EF50) ≤ 8
length-write_double_example =
    length-write_double 8 1 2 0x442B1AE4D6E2EF50 (omega arith) (omega arith)
