-- ===== src/Format/Real.antt =====
-- TW_FormatStringV with TW_WriteDouble: the conversion `%f`.
use mathlib.Core.Path.{subst}
use libtwilight.Prelude.{
  ℕ, ◌≤◌, ◌≡◌, refl, ap, ◌∙◌, List, [], ◌∷◌, ◌++◌, some, arith, length, length-append, take_all,
  codes,
}
use libtwilight.Prelude.Int.{ℤ, pos, negsuc, pos_part}
use libtwilight.Double.Text.{write_double, write_double_above, exponent_of, sign_of}
use libtwilight.Double.Text.Reading.{IsDecimal}
use libtwilight.Double.Text.Decimal.{nearest}
use libtwilight.Double.Text.Number.{steps_of, write_double-IsDecimal, text-short, sign-short}
use libtwilight.Format.{
  real, float_precision, flag_of, length_bits, kind_of, take_star, reset, remember,
}
use libtwilight.Format.Machine.{
  initial, run, step, at_percent, is_literal, in_conversion, at_flags, at_width, at_point,
  at_length, convert, perform, finish, next_real,
}
use libtwilight.Format.Buffer.{format_string}
use libtwilight.Format.Whole.{Delivers, format_list, format_string-Delivers}

-- The call of `TW_WriteDouble`, which does not read its mode.
unfoldable pub printed : ℕ → ℤ → ℤ → ℕ → ℕ → List ℕ
printed max_size min_width (pos precision) mode value =
    write_double max_size (pos_part min_width) precision value
printed max_size min_width (negsuc n) mode value =
    write_double_above max_size (pos_part min_width) n value

real_text :
    (max_output word : ℕ)
    → format_list printed max_output (codes "%f") (real word ∷ [])
      ≡ some (write_double 1536 0 6 word, [])
unfolding printed run step at_percent is_literal in_conversion at_flags at_width at_point at_length
    convert perform finish next_real initial reset remember length_bits flag_of take_star kind_of
    float_precision
real_text max_output word = refl

-- TW_FormatStringV on `%f` and a normal double: it sends the sign, the text of the number with six digits behind the
-- point, and a final 0 byte, and returns how many bytes they are without the 0. Read as a decimal number, the digits
-- are the exact value, rounded down to the sixth digit, or up by one if the seventh is above 5.
pub format_string-real :
    (max_output word : ℕ)
    → 1 ≤ exponent_of word
    → exponent_of word ≤ 2046
    → (text : List ℕ) × Delivers
        (format_string printed max_output (codes "%f") (real word ∷ []))
        (some (sign_of word ++ text, []))
      × IsDecimal 1 6 (nearest 6 (steps_of word)) text
format_string-real max_output word h k =
    let (text, written, decimal) =
      write_double-IsDecimal 1536 0 6 word (omega arith) (omega arith) h k in
    let short : length (sign_of word ++ text) ≤ 1536 = omega (
      arith,
      length-append (sign_of word) text,
      sign-short word,
      text-short 1 6 word text (omega arith) (omega arith) h k decimal,
    ) in
    let whole = written ∙ take_all 1536 (sign_of word ++ text) short in
    (
      text,
      subst (λ r. Delivers (format_string printed max_output (codes "%f") (real word ∷ [])) r)
          (real_text max_output word ∙ ap (λ (t : List ℕ). some (t, [])) whole)
          (format_string-Delivers printed max_output (codes "%f") (real word ∷ [])),
      decimal,
    )
