-- ===== src/Integer/Examples.antt =====
-- Runs and instances of TW_WriteInteger.
use libtwilight.Prelude.{◌^◌, ◌-◌, ◌≡◌, refl, codes, arith}
use libtwilight.Prelude.Int.{pos, signed32}
use libtwilight.Integer.{write_integer}
use libtwilight.Integer.Digits.{read_signed, read_signed-write_integer}

minus_26 : write_integer 1536 (pos 0) 31 10 0 (2 ^ 32 - 26) ≡ codes "-26"
unfolding write_integer
minus_26 = refl

padded_hex : write_integer 1536 (pos 6) 32 16 19 149 ≡ codes "0X0095"
unfolding write_integer
padded_hex = refl

left_signed : write_integer 1536 (pos 5) 31 10 12 26 ≡ codes "+26  "
unfolding write_integer
left_signed = refl

cut_off : write_integer 3 (pos 5) 31 10 0 26 ≡ codes "   "
unfolding write_integer
cut_off = refl

-- The most negative value.
read_signed-write_integer_example :
    read_signed 10 (write_integer 1536 (pos 0) 31 10 0 (2 ^ 31)) ≡ signed32 (2 ^ 31)
read_signed-write_integer_example =
    read_signed-write_integer 1536 (2 ^ 31) (omega arith) (omega arith)
