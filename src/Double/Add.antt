-- ===== src/Double/Add.antt =====
-- common/strformat.c, ADD_MANTISSA_MULTIPLE: the number in channel 2 after one addition.
use libtwilight.Prelude.{ℕ, ◌+◌, ◌-◌, ◌*◌, ◌^◌, ◌<◌, ◌≡◌, ap, ◌∙◌, arith, true, drop, take}
use libtwilight.Double.{Digits, size, add_multiple}
use libtwilight.Double.Value.{value, length-from_index, from_index-AllDigits}
use libtwilight.Double.Multiply.{value-multiply_loop, length-multiply_loop, multiply_loop-AllDigits}
use libtwilight.Double.Channel.{IsSource, IsTotal, segment_room, segment_read, value_channel}

pub add_multiple-IsTotal :
    (amount : ℕ) (s : Digits) (number total : ℕ)
    → IsSource s number
    → IsTotal s total
    → total + number * 2 ^ amount < 10 ^ size
    → IsTotal (add_multiple amount s) (total + number * 2 ^ amount)
unfolding add_multiple
add_multiple-IsTotal amount s number total h t room =
    let n = s.end_digit - s.first_digit in
    let seg = drop s.first_digit s.src in
    let c = h.quotient * 2 ^ amount in
    let shifted : number * 2 ^ amount ≡ 10 ^ s.first_digit * c =
      ap (λ t. t * 2 ^ amount) h.split ∙ grind arith in
    let read : value (take n seg) * 2 ^ amount ≡ c =
      ap (λ t. t * 2 ^ amount) (segment_read s number h) in
    record {
      total_length =
          length-from_index s.first_digit _ s.total
            (λ ys. length-multiply_loop true true n amount 0 0 seg ys)
          ∙ t.total_length;
      total_digits =
          from_index-AllDigits s.first_digit _ s.total t.total_digits
            (λ ys k. multiply_loop-AllDigits true true n amount 0 0 seg ys k);
      total_value =
          value_channel s.first_digit c _ s.total t.total_length
            (omega (arith, h.ordered, h.inside)) (omega (arith, shifted, t.total_value))
            (λ len fits.
              value-multiply_loop n amount 0 0 seg (drop s.first_digit s.total)
                (segment_room s number h) (omega (arith, len, h.inside)) (omega (arith, read))
              ∙ omega (arith, read))
          ∙ omega (arith, shifted, t.total_value);
    }

-- Only channel 2 changes.
pub add_multiple-IsSource :
    (amount : ℕ) (s : Digits) (number : ℕ)
    → IsSource s number
    → IsSource (add_multiple amount s) number
unfolding add_multiple
add_multiple-IsSource amount s number h = record {
  src_length = h.src_length;
  src_digits = h.src_digits;
  src_value = h.src_value;
  quotient = h.quotient;
  split = h.split;
  below = h.below;
  ordered = h.ordered;
  inside = h.inside;
}
