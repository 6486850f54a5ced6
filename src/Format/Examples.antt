-- ===== src/Format/Examples.antt =====
-- Runs of TW_FormatStringV.
use libtwilight.Prelude.{ℕ, ◌≡◌, refl, List, [], ◌∷◌, ◌++◌, Option, some, codes}
use libtwilight.Prelude.Int.{ℤ}
use libtwilight.Integer.{write_integer}
use libtwilight.Prelude.{arith}
use libtwilight.Format.Whole.{Delivers, format_list, format_string-Delivers}
use libtwilight.Format.Refine.{list_sink}
use libtwilight.Format.Real.{printed, format_string-real}
use libtwilight.Double.Text.{sign_of}
use libtwilight.Double.Text.Reading.{IsDecimal}
use libtwilight.Double.Text.Decimal.{nearest}
use libtwilight.Double.Text.Number.{steps_of}
use libtwilight.Format.Modifiers.{long, conv_d, conversion_byte, modifiers, run-modifiers}
use libtwilight.Format.{
  Arg, word, real, text, cell, reset, remember, length_bits, flag_of, signed_flags, unsigned_flags,
  take_integer, take_star, kind_of, float_precision,
}
use libtwilight.Format.Machine.{
  initial, run, step, at_percent, is_literal, in_conversion, put_literal, at_flags, at_width,
  at_point, at_precision, at_length, convert, perform, finish, put_string, next_real, next_word,
  next_text, next_cell,
}
use libtwilight.Format.Buffer.{format_string, buffer_sink, close, put, append, count}

abbrev no_double : ℕ → ℤ → ℤ → ℕ → ℕ → List ℕ
no_double size width precision mode value = []

-- The function with all that it calls open.
sprintf : ℕ → List ℕ → List Arg → Option (ℕ × List (List ℕ) × List ℕ)
unfolding format_string run step at_percent is_literal in_conversion put_literal at_flags at_width
    at_point at_precision at_length convert perform finish put_string next_real next_word next_text
    next_cell initial buffer_sink close put append count reset remember length_bits flag_of
    signed_flags unsigned_flags take_integer take_star kind_of float_precision write_integer
sprintf = format_string no_double

mixed :
    sprintf 0 (codes "a%+04dc%%%s|%5x") (word 26 ∷ text (some (codes "xy")) ∷ word 149 ∷ [])
    ≡ some (15, (codes "a+026c%xy|   95" ++ 0 ∷ []) ∷ [], [])
unfolding sprintf
mixed = refl

-- The two `l` are skipped and an `int` is read.
long_long : sprintf 0 (codes "%lld") (word 7 ∷ []) ≡ some (1, (b'7' ∷ 0 ∷ []) ∷ [], [])
unfolding sprintf
long_long = refl

cut_at_3 : sprintf 3 (codes "abcdef") [] ≡ some (3, (codes "abc" ++ 0 ∷ []) ∷ [], [])
unfolding sprintf
cut_at_3 = refl

format_string-Delivers_example :
    Delivers
      (format_string no_double 0 (codes "%5x%n") (word 149 ∷ cell ∷ []))
      (format_list no_double 0 (codes "%5x%n") (word 149 ∷ cell ∷ []))
format_string-Delivers_example =
    format_string-Delivers no_double 0 (codes "%5x%n") (word 149 ∷ cell ∷ [])

run-modifiers_example :
    run
      (list_sink 0)
      no_double
      (b'%' ∷ modifiers (long ∷ long ∷ []) (conversion_byte conv_d ∷ []))
      (initial [] (word 7 ∷ []))
    ≡ run (list_sink 0) no_double (b'%' ∷ conversion_byte conv_d ∷ []) (initial [] (word 7 ∷ []))
unfolding initial
run-modifiers_example =
    run-modifiers (list_sink 0) no_double (long ∷ long ∷ []) conv_d [] (initial [] (word 7 ∷ []))
      refl (omega arith)

format_string-real_example :
    (text : List ℕ) × Delivers
      (format_string printed 0 (codes "%f") (real 0x400921F9F01B866E ∷ []))
      (some (sign_of 0x400921F9F01B866E ++ text, []))
    × IsDecimal 1 6 (nearest 6 (steps_of 0x400921F9F01B866E)) text
format_string-real_example = format_string-real 0 0x400921F9F01B866E (omega arith) (omega arith)
