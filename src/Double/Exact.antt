-- ===== src/Double/Exact.antt =====
-- common/strformat.c, TW_WriteDouble up to the second loop over the mantissa: channel 2 holds the exact value.
use native.Mathlib.Nat.{
  one-le-pow, lt_of_lt_of_le, pow-le-pow_right, mul-le-mul_right, mul-lt-mul_of_pos_left,
}
use libtwilight.Prelude.{
  ℕ, ◌+◌, ◌-◌, ◌*◌, ◌/◌, ◌%◌, ◌^◌, ◌<◌, ◌≤◌, ◌≡◌, refl, ◌∙◌, arith, Bool, ◌||◌, ◌==◌,
}
use libtwilight.Double.{
  Digits, size, add_bits, add_multiple, raise, is_bit, initial_digits, shift_interval, digits_of,
}
use libtwilight.Double.Value.{pow_add}
use libtwilight.Double.Channel.{IsSource, IsTotal}
use libtwilight.Double.Steps.{raise-IsSource, raise-end, below-limited}
use libtwilight.Double.Interval.{
  interval, interval-room, smaller, smaller-bounds, shift_interval-IsReady,
}
use libtwilight.Double.Bits.{
  Rest, add_bits-keeps, add_multiple-Rest, add_bits-IsTotal, leading_bits,
}
-- The interval is a multiple of 10^27 times its first digit's weight after the shift by 27 bits.
use libtwilight.Double.Widened.{raise_split, widened, widened-IsReady, widened-last}

add_multiple-first : (amount : ℕ) (s : Digits) → (add_multiple amount s).first_digit ≡ s.first_digit
unfolding add_multiple
add_multiple-first amount s = refl

add_multiple-end : (amount : ℕ) (s : Digits) → (add_multiple amount s).end_digit ≡ s.end_digit
unfolding add_multiple
add_multiple-end amount s = refl

-- The two halves of the mantissa with its leading one.
mantissa_sum :
    (m f : ℕ)
    → m < 2 ^ 52
    → 0
        + f * (m / 2 ^ 0 % 2 ^ 27 * 2 ^ 0)
        + f * 2 ^ 27 * ((2 ^ 25 + m / 2 ^ 27) / 2 ^ 0 % 2 ^ 26 * 2 ^ 0)
      ≡ (2 ^ 52 + m) * f
mantissa_sum m f small =
    let low : m / 2 ^ 0 % 2 ^ 27 * 2 ^ 0 ≡ m % 2 ^ 27 = omega arith in
    let high : (2 ^ 25 + m / 2 ^ 27) / 2 ^ 0 % 2 ^ 26 * 2 ^ 0 ≡ 2 ^ 25 + m / 2 ^ 27 = omega arith in
    let whole : m % 2 ^ 27 + 2 ^ 27 * (2 ^ 25 + m / 2 ^ 27) ≡ 2 ^ 52 + m = omega arith in
    rw (low, high, ← whole) (grind arith)

-- The state after the first loop over the mantissa.
lower : ℕ → ℕ → Digits
lower e m = add_bits (is_bit m) 27 0 (widened e)

module _ (e m : ℕ) (normal : 1 ≤ e) (finite : e ≤ 2046) (small : m < 2 ^ 52) where
  lower-Rest : Rest (interval e) (widened e).first_digit (widened e).end_digit (lower e m)
  unfolding lower
  lower-Rest =
      let r = widened-IsReady e normal finite in
      add_bits-keeps (Rest (interval e) (widened e).first_digit (widened e).end_digit)
        (add_multiple-Rest (interval e) (widened e).first_digit (widened e).end_digit) (is_bit m) 27
        0 (widened e) (r.source, r.cleared, refl, refl)

  pub whole_room : (2 ^ 52 + m) * interval e < 10 ^ size
  whole_room =
      let le : (2 ^ 52 + m) * interval e ≤ 2 ^ 53 * interval e =
        mul-le-mul_right (interval e) (omega arith) in
      omega (arith, le, interval-room e normal finite)

  lower-IsTotal : IsTotal (lower e m) (0 + interval e * (m / 2 ^ 0 % 2 ^ 27 * 2 ^ 0))
  unfolding lower
  lower-IsTotal =
      let r = widened-IsReady e normal finite in
      add_bits-IsTotal (is_bit m) m 27 0 (widened e) (interval e) 0 r.source r.empty (λ j k l. refl)
        (omega (arith, whole_room, mantissa_sum m (interval e) small))

  raised-IsSource : IsSource (raise (lower e m)) (interval e * 2 ^ 27)
  raised-IsSource =
      let r = widened-IsReady e normal finite in
      let (h, c, first, last) = lower-Rest in
      let p = smaller (e - 1) 1022 in
      let (left, right) = smaller-bounds (e - 1) 1022 in
      let start : (lower e m).first_digit ≡ p = first ∙ r.first_is in
      raise-IsSource 27 (lower e m) (interval e) h c (2 ^ (e - 1 - p) * 5 ^ (1074 - p - 27))
        (rw start (raise_split e p left right)) (omega (arith, interval-room e normal finite))
        (omega (arith, start, right, last, widened-last e normal finite))

  raised-IsTotal : IsTotal (raise (lower e m)) (0 + interval e * (m / 2 ^ 0 % 2 ^ 27 * 2 ^ 0))
  unfolding raise
  raised-IsTotal = record {
    total_length = lower-IsTotal.total_length;
    total_digits = lower-IsTotal.total_digits;
    total_value = lower-IsTotal.total_value;
  }

  -- The digit arithmetic is exact: for every normal number, channel 2 ends with the decimal digits of the mantissa
  -- with its leading one, times 2^(exponent - 1) * 5^1074, which is the value of the double in steps of 10^-1074.
  pub digits_of-IsTotal : IsTotal (digits_of e m) ((2 ^ 52 + m) * interval e)
  unfolding digits_of lower widened
  digits_of-IsTotal =
      let is_set : ℕ → Bool = λ i. (i == 25) || is_bit (m / 2 ^ 27) i in
      let t =
        add_bits-IsTotal is_set (2 ^ 25 + m / 2 ^ 27) 26 0 (raise (lower e m)) (interval e * 2 ^ 27)
          _ raised-IsSource raised-IsTotal (leading_bits (m / 2 ^ 27) (omega arith))
          (omega (arith, whole_room, mantissa_sum m (interval e) small)) in
      record {
        total_length = t.total_length;
        total_digits = t.total_digits;
        total_value = t.total_value ∙ mantissa_sum m (interval e) small;
      }

  pub digits_of-first : (digits_of e m).first_digit ≡ smaller (e - 1) 1022
  unfolding digits_of lower widened raise
  digits_of-first =
      let is_set : ℕ → Bool = λ i. (i == 25) || is_bit (m / 2 ^ 27) i in
      let p = (raise (lower e m)).first_digit in
      let kept =
        add_bits-keeps (λ s. s.first_digit ≡ p) (λ i s h. add_multiple-first i s ∙ h) is_set 26 0
          (raise (lower e m)) refl in
      let (h, c, first, last) = lower-Rest in
      omega (arith, kept, first, (widened-IsReady e normal finite).first_is)

  digits_of-last : (widened e).end_digit ≤ (digits_of e m).end_digit
  unfolding digits_of lower widened
  digits_of-last =
      let is_set : ℕ → Bool = λ i. (i == 25) || is_bit (m / 2 ^ 27) i in
      let q = (raise (lower e m)).end_digit in
      let kept =
        add_bits-keeps (λ s. s.end_digit ≡ q) (λ i s h. add_multiple-end i s ∙ h) is_set 26 0
          (raise (lower e m)) refl in
      let (h, c, first, last) = lower-Rest in
      omega (arith, kept, raise-end (lower e m) h.inside, last)

  pub digits_of-inside : (digits_of e m).end_digit ≤ size
  unfolding digits_of lower widened
  digits_of-inside =
      let is_set : ℕ → Bool = λ i. (i == 25) || is_bit (m / 2 ^ 27) i in
      let q = (raise (lower e m)).end_digit in
      let kept =
        add_bits-keeps (λ s. s.end_digit ≡ q) (λ i s h. add_multiple-end i s ∙ h) is_set 26 0
          (raise (lower e m)) refl in
      omega (arith, kept, raised-IsSource.inside)

  pub digits_of-end : 1111 ≤ (digits_of e m).end_digit
  digits_of-end = omega (arith, digits_of-last, widened-last e normal finite)

  widened-below : (2 ^ 52 + m) * interval e < 10 ^ (widened e).end_digit
  unfolding widened
  widened-below =
      let s = shift_interval e initial_digits in
      let r = shift_interval-IsReady e normal finite in
      let digits : 2 ^ 52 + m ≤ 10 ^ 52 = omega arith in
      let le : (2 ^ 52 + m) * interval e ≤ 10 ^ 52 * interval e =
        mul-le-mul_right (interval e) digits in
      let lt : 10 ^ 52 * interval e < 10 ^ 52 * 10 ^ s.end_digit =
        mul-lt-mul_of_pos_left r.source.below (one-le-pow 52 10 (omega arith)) in
      let more : 10 ^ 52 * 10 ^ s.end_digit ≡ 10 ^ (s.end_digit + 52) =
        rw (pow_add 10 s.end_digit 52) (grind arith) in
      below-limited (s.end_digit + 52) ((2 ^ 52 + m) * interval e) (omega (arith, le, lt, more))
        whole_room

  -- The number ends below the end of the digits in use.
  pub digits_of-below : (2 ^ 52 + m) * interval e < 10 ^ (digits_of e m).end_digit
  digits_of-below = lt_of_lt_of_le widened-below (
      pow-le-pow_right {n = 10} (omega arith) {i = (widened e).end_digit}
        {j = (digits_of e m).end_digit} digits_of-last)
