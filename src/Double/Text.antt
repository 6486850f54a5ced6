-- ===== src/Double/Text.antt =====
-- common/strformat.c, TW_WriteDouble: the special cases, the rounding of channel 2, and the text. A position
-- `inPos` is given by the number of digits up to it, which is one more.
pub mod Round
pub mod Emit
pub mod Spell
pub mod Reading
pub mod Decimal
pub mod Number
mod Examples
use libtwilight.Prelude.{
  ℕ, zero, suc, ◌+◌, ◌-◌, ◌*◌, ◌/◌, ◌%◌, ◌^◌, Bool, true, false, not, ◌&&◌, List, [], ◌∷◌, ◌++◌,
  ltb, leb, ◌==◌, if◌then◌else◌, length, get_or, replicate, codes,
}
use libtwilight.Integer.{emit}
use libtwilight.Double.{Digits, from_index, digits_of}

-- `do … while (carry && roundDigit < 1383)`, with `inc + carry` for the first digit.
pub round_loop : ℕ → List ℕ → List ℕ
round_loop addend [] = []
round_loop addend (x ∷ xs) =
    let d = x + addend in
    let rest = round_loop (d / 10) xs in d % 10 ∷ (if d / 10 == 0 then xs else rest)

-- The rounding at digit `1074 - precision - 1`, up if that digit is above 5.
pub rounded : ℕ → List ℕ → List ℕ
unfolding round_loop
rounded precision digits =
    let round_digit = 1074 - precision - 1 in
    if ltb 5 (get_or digits round_digit 0)
    then from_index (suc round_digit) (round_loop 1) digits
    else digits

-- The same for the precision `-(n + 1)`, at digit `1074 + n`; a digit behind the array counts as 0.
pub rounded_above : ℕ → List ℕ → List ℕ
unfolding round_loop
rounded_above n digits =
    if ltb 5 (get_or digits (1074 + n) 0)
    then from_index (suc (1074 + n)) (round_loop 1) digits
    else digits

-- `while (buf[endDigit * CHANNELS + 2] == 0 && endDigit > 1074)`.
pub trimmed : List ℕ → ℕ → ℕ
trimmed digits zero = zero
trimmed digits (suc end_digit) =
    let rest = trimmed digits end_digit in
    if (get_or digits (suc end_digit) 0 == 0) && ltb 1074 (suc end_digit)
    then rest
    else suc end_digit

-- The zeros before the first digit: `n` is `minWidth - i`.
pub pad_zeros : ℕ → ℕ → ℕ → List ℕ → List ℕ
pad_zeros max_size zero in_pos out = out
pad_zeros max_size (suc n) in_pos out =
    let rest = pad_zeros max_size n in_pos (out ++ b'0' ∷ []) in
    if ltb in_pos (1074 + n) && ltb (length out) max_size then rest else out

-- `while (outPos < maxSize && inPos >= 1074 && inPos >= firstDigit)`: the text, and the digits left.
pub whole_loop : ℕ → ℕ → List ℕ → ℕ → List ℕ → List ℕ × ℕ
whole_loop max_size first_digit digits zero out = (out, zero)
whole_loop max_size first_digit digits (suc in_pos) out =
    let rest =
      whole_loop max_size first_digit digits in_pos (out ++ (b'0' + get_or digits in_pos 0) ∷ []) in
    if ltb (length out) max_size && leb 1074 in_pos && leb first_digit in_pos
    then rest
    else (out, suc in_pos)

-- The first loop behind the point, from `i` on: the text, and the `n = precision - i` rounds left.
pub zeros_loop : ℕ → ℕ → ℕ → ℕ → List ℕ → List ℕ × ℕ
zeros_loop max_size zero i left out = (out, zero)
zeros_loop max_size (suc n) i left out =
    let rest = zeros_loop max_size n (suc i) left (out ++ b'0' ∷ []) in
    if ltb (length out) max_size && ltb (1074 + i) left then rest else (out, suc n)

-- The second.
pub fraction_loop : ℕ → ℕ → List ℕ → ℕ → ℕ → List ℕ → List ℕ × ℕ
fraction_loop max_size first_digit digits zero left out = (out, zero)
fraction_loop max_size first_digit digits (suc n) zero out = (out, suc n)
fraction_loop max_size first_digit digits (suc n) (suc in_pos) out =
    let rest =
      fraction_loop max_size first_digit digits n in_pos
        (out ++ (b'0' + get_or digits in_pos 0) ∷ []) in
    if ltb (length out) max_size && leb first_digit in_pos then rest else (out, suc n)

-- From the point on.
pub write_fraction : ℕ → ℕ → ℕ → List ℕ → ℕ → List ℕ → List ℕ
unfolding zeros_loop fraction_loop emit
write_fraction max_size precision first_digit digits left out =
    let point : List ℕ → List ℕ = λ before. emit max_size before (b'.' ∷ []) in
    let large =
      emit max_size (point (emit max_size out (replicate (first_digit - 1074) b'0')))
        (replicate precision b'0') in
    let (zeros, rounds) = zeros_loop max_size precision 0 left (point out) in
    let (digit_text, last) = fraction_loop max_size first_digit digits rounds left zeros in
    if ltb 1075 left then large else emit max_size digit_text (replicate last b'0')

abbrev pub at_least_one : ℕ → ℕ
at_least_one n = if ltb n 1 then 1 else n

-- Behind the rounding.
pub write_rounded : ℕ → ℕ → ℕ → Digits → List ℕ → List ℕ → List ℕ
unfolding trimmed pad_zeros whole_loop write_fraction
write_rounded max_size min_width precision s digits out =
    let end_digit = trimmed digits s.end_digit in
    let padded = pad_zeros max_size (at_least_one min_width) end_digit out in
    let (text, left) = whole_loop max_size s.first_digit digits (suc end_digit) padded in
    write_fraction max_size precision s.first_digit digits left text

-- From the rounding on.
pub write_digits : ℕ → ℕ → ℕ → Digits → List ℕ → List ℕ
unfolding rounded write_rounded
write_digits max_size min_width precision s out =
    write_rounded max_size min_width precision s (rounded precision (s.total ++ 0 ∷ [])) out

abbrev pub exponent_of : ℕ → ℕ
exponent_of word = word / 2 ^ 52 % 2 ^ 11

abbrev pub mantissa_of : ℕ → ℕ
mantissa_of word = word % 2 ^ 52

-- `if (asU64 >> 63)`: the sign is written without a look at `maxSize`.
abbrev pub sign_of : ℕ → List ℕ
sign_of word = if not (word / 2 ^ 63 == 0) then b'-' ∷ [] else []

-- `TW_WriteDouble` on the bits of the double, by the text of a normal number behind its sign.
pub write_special_or : ℕ → ℕ → ℕ → ℕ → (List ℕ → List ℕ) → List ℕ
unfolding emit
write_special_or max_size min_width precision word normal =
    let exponent = exponent_of word in
    let mantissa = mantissa_of word in
    let sign = sign_of word in
    let zeros =
      emit max_size
        (emit max_size (emit max_size sign (replicate (at_least_one min_width) b'0')) (b'.' ∷ []))
        (replicate (at_least_one precision) b'0') in
    let special = emit max_size sign (if mantissa == 0 then codes "inf" else codes "nan") in
    if exponent == 0 then zeros else if exponent == 2047 then special else normal sign

-- For a precision that is not negative.
pub write_double : ℕ → ℕ → ℕ → ℕ → List ℕ
unfolding digits_of write_digits write_special_or
write_double max_size min_width precision word =
    write_special_or max_size min_width precision word
      (write_digits max_size min_width precision (digits_of (exponent_of word) (mantissa_of word)))

-- For the precision `-(n + 1)`: no digit stands behind the point.
pub write_double_above : ℕ → ℕ → ℕ → ℕ → List ℕ
unfolding digits_of rounded_above write_rounded write_special_or
write_double_above max_size min_width n word =
    let s = digits_of (exponent_of word) (mantissa_of word) in
    write_special_or max_size min_width 0 word
      (write_rounded max_size min_width 0 s (rounded_above n (s.total ++ 0 ∷ [])))
