-- ===== src/Double/Channel.antt =====
-- common/strformat.c, TW_WriteDouble: the channels of the digit array and the number that the source channel
-- stands for, through one step of the shifts and of the additions.
use libtwilight.Prelude.{
  ℕ, ◌+◌, ◌-◌, ◌*◌, ◌^◌, ◌<◌, ◌≤◌, ◌≡◌, ap, ◌∙◌, arith, List, length, length-drop, take, drop,
}
use libtwilight.Double.{Digits, size, from_index, clear_loop}
use libtwilight.Double.Value.{
  value, AllDigits, pow_add, value-split, value-take, value-drop, value-from_index, lt_of_mul,
  unique_split, take_lt_pow,
}
use libtwilight.Double.Shift.{value-clear_loop}

-- The source channel stands for `number`, a multiple of the weight of its first digit, and its digits end below
-- `end_digit`.
pub record IsSource (s : Digits) (number : ℕ) : Type 0 where
  pub src_length : length s.src ≡ size
  pub src_digits : AllDigits s.src
  pub src_value : value s.src ≡ number
  pub quotient : ℕ
  pub split : number ≡ 10 ^ s.first_digit * quotient
  pub below : number < 10 ^ s.end_digit
  pub ordered : s.first_digit ≤ s.end_digit
  pub inside : s.end_digit ≤ size

-- The other channel holds zeros.
pub record IsCleared (s : Digits) : Type 0 where
  pub other_length : length s.other ≡ size
  pub other_digits : AllDigits s.other
  pub other_value : value s.other ≡ 0

-- Channel 2 holds the digits of a number.
pub record IsTotal (s : Digits) (number : ℕ) : Type 0 where
  pub total_length : length s.total ≡ size
  pub total_digits : AllDigits s.total
  pub total_value : value s.total ≡ number

-- What the loops read of the source.
module _ (s : Digits) (number : ℕ) (h : IsSource s number) where
  pub segment : value (drop s.first_digit s.src) ≡ h.quotient
  segment = value-drop s.first_digit h.quotient s.src h.src_digits (h.src_value ∙ h.split)

  pub segment_room : s.end_digit - s.first_digit ≤ length (drop s.first_digit s.src)
  segment_room = omega (arith, length-drop s.first_digit s.src, h.src_length, h.inside)

  pub quotient_small : h.quotient < 10 ^ (s.end_digit - s.first_digit)
  quotient_small =
      let whole : s.first_digit + (s.end_digit - s.first_digit) ≡ s.end_digit =
        omega (arith, h.ordered) in
      lt_of_mul (10 ^ s.first_digit) h.quotient (10 ^ (s.end_digit - s.first_digit))
        (rw (← (pow_add 10 s.first_digit (s.end_digit - s.first_digit)), whole, ← h.split) h.below)

  pub segment_read :
      value (take (s.end_digit - s.first_digit) (drop s.first_digit s.src)) ≡ h.quotient
  segment_read =
      value-take (s.end_digit - s.first_digit) (drop s.first_digit s.src)
        (rw segment quotient_small)
      ∙ segment

  segment_above : value (take s.first_digit s.src) ≡ 0
  segment_above =
      (unique_split (10 ^ s.first_digit) (value (take s.first_digit s.src))
        (value (drop s.first_digit s.src)) h.quotient (take_lt_pow s.first_digit s.src h.src_digits)
        (value-split s.first_digit s.src ∙ h.src_value ∙ h.split)).1

  -- The channel that the source leaves.
  pub value_cleared :
      value (from_index s.first_digit (clear_loop (s.end_digit - s.first_digit)) s.src) ≡ 0
  value_cleared =
      let n = s.end_digit - s.first_digit in
      let seg = drop s.first_digit s.src in
      let nothing : value (clear_loop n seg) ≡ 0 =
        omega (arith, value-clear_loop n seg, segment_read, segment) in
      value-from_index s.first_digit (clear_loop n) s.src
        (omega (arith, h.ordered, h.inside, h.src_length))
      ∙ omega (arith, segment_above, ap (λ t. 10 ^ s.first_digit * t) nothing)

-- A loop that adds `c` to the digits from `p` on, where there is room for the sum.
pub value_channel :
    (p c : ℕ) (f : List ℕ → List ℕ) (xs : List ℕ)
    → length xs ≡ size
    → p ≤ size
    → value xs + 10 ^ p * c < 10 ^ size
    → (length (drop p xs) ≡ size - p
        → value (drop p xs) + c < 10 ^ length (drop p xs)
        → value (f (drop p xs)) ≡ value (drop p xs) + c)
    → value (from_index p f xs) ≡ value xs + 10 ^ p * c
value_channel p c f xs len inside room adds =
    let ys = drop p xs in
    let ys_len : length ys ≡ size - p = length-drop p xs ∙ ap (λ t. t - p) len in
    let whole : p + (size - p) ≡ size = omega arith in
    let sum : 10 ^ p * (value ys + c) ≡ 10 ^ p * value ys + 10 ^ p * c = grind arith in
    let fits : value ys + c < 10 ^ length ys = rw ys_len (
      lt_of_mul (10 ^ p) (value ys + c) (10 ^ (size - p))
        (rw (← (pow_add 10 p (size - p)), whole) (omega (arith, sum, value-split p xs)))) in
    value-from_index p f xs (omega (arith, len))
    ∙ ap (λ t. value (take p xs) + 10 ^ p * t) (adds ys_len fits)
    ∙ omega (arith, sum, value-split p xs)
