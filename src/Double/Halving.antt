-- ===== src/Double/Halving.antt =====
-- common/strformat.c, SHIFT_DIGITS_RIGHT: the number in the source channel after one shift to the right.
use native.Mathlib.Nat.{one-le-pow, le-mul_of_pos_right, pow-le-pow_right}
use libtwilight.Prelude.{ℕ, ◌+◌, ◌-◌, ◌*◌, ◌^◌, ◌<◌, ◌≤◌, ◌≡◌, refl, ap, ◌∙◌, arith, drop, take}
use libtwilight.Double.{Digits, size, shift_right}
use libtwilight.Double.Value.{
  value, pow_add, pow_ten, length-from_index, from_index-AllDigits, cancel,
}
use libtwilight.Double.Shift.{
  value-right_loop, length-right_loop, right_loop-AllDigits, length-clear_loop,
  clear_loop-AllDigits,
}
use libtwilight.Double.Channel.{
  IsSource, IsCleared, segment_room, segment_read, value_cleared, value_channel,
}

module _ (amount : ℕ) (s : Digits) (half : ℕ) (h : IsSource s (half * 2 ^ amount)) (c : IsCleared s)
    (digits : amount ≤ s.first_digit) where
  half_split : half ≡ 10 ^ (s.first_digit - amount) * (h.quotient * 5 ^ amount)
  half_split =
      let whole : s.first_digit - amount + amount ≡ s.first_digit = omega arith in
      let parts : 10 ^ s.first_digit ≡ 10 ^ (s.first_digit - amount) * (2 ^ amount * 5 ^ amount) =
        rw (← pow_ten amount, ← (pow_add 10 (s.first_digit - amount) amount), whole) refl in
      cancel (2 ^ amount) half _ (one-le-pow amount 2 (omega arith))
        (h.split ∙ ap (λ t. t * h.quotient) parts ∙ grind arith)

  half_below : half < 10 ^ s.end_digit
  half_below =
      let grows : half ≤ half * 2 ^ amount =
        le-mul_of_pos_right half (one-le-pow amount 2 (omega arith)) in
      omega (arith, h.below)

  pub shift_right-IsSource : IsSource (shift_right amount s) half
  unfolding shift_right
  shift_right-IsSource =
      let n = s.end_digit - s.first_digit in
      let p = s.first_digit - amount in
      let w = h.quotient * 5 ^ amount in
      let seg = drop s.first_digit s.src in
      let read : value (take n seg) * 5 ^ amount ≡ w =
        ap (λ t. t * 5 ^ amount) (segment_read s _ h) in
      let low : p ≤ size = omega (arith, h.ordered, h.inside) in
      record {
        src_length =
            length-from_index p _ s.other (length-right_loop n amount (10 ^ amount) seg)
            ∙ c.other_length;
        src_digits =
            from_index-AllDigits p _ s.other c.other_digits
              (right_loop-AllDigits n amount (10 ^ amount) seg);
        src_value =
            value_channel p w _ s.other c.other_length low
              (omega (
                arith,
                c.other_value,
                half_split,
                half_below,
                pow-le-pow_right {n = 10} (omega arith) {i = s.end_digit} {j = size} h.inside,
              ))
              (λ len fits.
                value-right_loop n amount seg (drop p s.other) (segment_room s _ h)
                  (omega (arith, read))
                ∙ omega (arith, read))
            ∙ omega (arith, c.other_value, half_split);
        quotient = w;
        split = half_split;
        below = half_below;
        ordered = omega (arith, h.ordered);
        inside = h.inside;
      }

  pub shift_right-IsCleared : IsCleared (shift_right amount s)
  unfolding shift_right
  shift_right-IsCleared = record {
    other_length =
        length-from_index s.first_digit _ s.src (length-clear_loop (s.end_digit - s.first_digit))
        ∙ h.src_length;
    other_digits =
        from_index-AllDigits s.first_digit _ s.src h.src_digits
          (clear_loop-AllDigits (s.end_digit - s.first_digit));
    other_value = value_cleared s _ h;
  }
