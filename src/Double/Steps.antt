-- ===== src/Double/Steps.antt =====
-- common/strformat.c, SHIFT_DIGITS_LEFT and the shift by 27 bits: the number in the source
-- channel and the number in channel 2 after one step.
use native.Mathlib.Nat.{one-le-pow, mul-le-mul_left, mul-lt-mul_of_pos_left}
use libtwilight.Prelude.{
  ℕ, ◌+◌, ◌-◌, ◌*◌, ◌^◌, ◌<◌, ◌≤◌, ◌≡◌, inl, inr, ap, ◌∙◌, arith, Bool, true, false, List, length,
  length-drop, drop, take, Bool-cases, ltb, ltb→lt,
}
use libtwilight.Double.{Digits, size, limited, from_index, multiply_loop, shift_left, raise}
use libtwilight.Double.Value.{
  value, pow_add, value-split, length-from_index, from_index-AllDigits, lt_of_mul,
}
use libtwilight.Double.Multiply.{value-multiply_loop, length-multiply_loop, multiply_loop-AllDigits}
use libtwilight.Double.Shift.{
  multiply_loop-zeros, multiply_loop-rounds, length-clear_loop, clear_loop-AllDigits,
}
use libtwilight.Double.Channel.{
  IsSource, IsCleared, segment_room, segment_read, value_cleared, value_channel,
}

pub limited_le : (e : ℕ) → limited e ≤ size
limited_le e = elim (Bool-cases (ltb size e)) [
  | inl b ↦ rw b (omega arith)
  | inr b ↦ rw b (ground arith)
]

pub below-limited : (e x : ℕ) → x < 10 ^ e → x < 10 ^ size → x < 10 ^ limited e
below-limited e x h k = elim (Bool-cases (ltb size e)) [ inl b ↦ rw b k | inr b ↦ rw b h ]

pub le-limited : (a e : ℕ) → a ≤ e → a ≤ size → a ≤ limited e
le-limited a e h k = elim (Bool-cases (ltb size e)) [ inl b ↦ rw b k | inr b ↦ rw b h ]

value_of_zeros : (p : ℕ) (z : List ℕ) → value z ≡ 0 → value (drop p z) ≡ 0
value_of_zeros p z h = elim (Bool-cases (ltb 0 (value (drop p z)))) [
  | inl e ↦
      let above : 10 ^ p * 1 ≤ 10 ^ p * value (drop p z) =
        mul-le-mul_left (10 ^ p) (ltb→lt 0 _ e) in
      absurd (omega (arith, value-split p z, one-le-pow p 10 (omega arith)))
  | inr e ↦ ground arith
]

-- The loop of a shift to the left, into a channel of zeros.
module _ (s : Digits) (number : ℕ) (h : IsSource s number) (z : List ℕ) (z_length : length z ≡ size)
    (z_value : value z ≡ 0) (keep keep_carry : Bool) (amount : ℕ)
    (room : number * 2 ^ amount < 10 ^ size) where
  abbrev loop : List ℕ → List ℕ × ℕ
  loop =
      multiply_loop keep keep_carry (s.end_digit - s.first_digit) amount 0 0
        (drop s.first_digit s.src)

  shifted : number * 2 ^ amount ≡ 10 ^ s.first_digit * (h.quotient * 2 ^ amount)
  shifted = ap (λ t. t * 2 ^ amount) h.split ∙ grind arith

  enough : s.end_digit - s.first_digit ≤ length (drop s.first_digit z)
  enough = omega (arith, length-drop s.first_digit z, h.inside)

  value_loop :
      value (drop s.first_digit z) + h.quotient * 2 ^ amount < 10 ^ length (drop s.first_digit z)
      → value (loop (drop s.first_digit z)).0
        ≡ value (drop s.first_digit z) + h.quotient * 2 ^ amount
  value_loop fits =
      let n = s.end_digit - s.first_digit in
      let seg = drop s.first_digit s.src in
      let read : value (take n seg) * 2 ^ amount ≡ h.quotient * 2 ^ amount =
        ap (λ t. t * 2 ^ amount) (segment_read s number h) in
      ap (λ q. value q.0)
        (multiply_loop-zeros keep keep_carry n amount 0 0 seg (drop s.first_digit z)
          (value_of_zeros s.first_digit z z_value))
      ∙ value-multiply_loop n amount 0 0 seg (drop s.first_digit z) (segment_room s number h) enough
          (omega (arith, read))
      ∙ omega (arith, read)

  left_fits :
      value (drop s.first_digit z) ≡ 0
      → value (drop s.first_digit z) + h.quotient * 2 ^ amount < 10 ^ length (drop s.first_digit z)
  left_fits none =
      let p = s.first_digit in
      let len : length (drop p z) ≡ size - p = length-drop p z ∙ ap (λ t. t - p) z_length in
      let whole : p + (size - p) ≡ size = omega (arith, h.ordered, h.inside) in
      rw (none, len)
        (lt_of_mul (10 ^ p) (0 + h.quotient * 2 ^ amount) (10 ^ (size - p))
          (rw (← (pow_add 10 p (size - p)), whole) (omega (arith, shifted))))

  value_left : value (from_index s.first_digit (λ dst. (loop dst).0) z) ≡ number * 2 ^ amount
  value_left =
      value_channel s.first_digit (h.quotient * 2 ^ amount) (λ dst. (loop dst).0) z z_length
        (omega (arith, h.ordered, h.inside)) (omega (arith, shifted)) (λ len fits. value_loop fits)
      ∙ omega (arith, shifted)

  below_left : number * 2 ^ amount < 10 ^ limited (s.end_digit + (loop (drop s.first_digit z)).1)
  below_left =
      let n = s.end_digit - s.first_digit in
      let p = s.first_digit in
      let seg = drop p s.src in
      let dst = drop p z in
      let none : value dst ≡ 0 = value_of_zeros p z z_value in
      let r = (loop dst).1 in
      let same : loop dst ≡ multiply_loop true true n amount 0 0 seg dst =
        multiply_loop-zeros keep keep_carry n amount 0 0 seg dst none in
      let wide : value (loop dst).0 < 10 ^ (n + r) =
        rw same (multiply_loop-rounds n amount 0 0 seg dst none (segment_room s number h) enough) in
      let inner : h.quotient * 2 ^ amount < 10 ^ (n + r) =
        omega (arith, value_loop (left_fits none), wide) in
      let whole : p + (n + r) ≡ s.end_digit + r = omega (arith, h.ordered) in
      below-limited (s.end_digit + r) (number * 2 ^ amount)
        (rw (shifted, ← whole, pow_add 10 p (n + r))
          (mul-lt-mul_of_pos_left inner (one-le-pow p 10 (omega arith))))
        room

module _ (amount : ℕ) (s : Digits) (number : ℕ) (h : IsSource s number) (c : IsCleared s) where
  pub shift_left-IsSource :
      number * 2 ^ amount < 10 ^ size → IsSource (shift_left amount s) (number * 2 ^ amount)
  unfolding shift_left
  shift_left-IsSource room =
      let n = s.end_digit - s.first_digit in
      let seg = drop s.first_digit s.src in
      let last =
        s.end_digit + (multiply_loop true false n amount 0 0 seg (drop s.first_digit s.other)).1 in
      record {
        src_length =
            length-from_index s.first_digit _ s.other
              (λ ys. length-multiply_loop true false n amount 0 0 seg ys)
            ∙ c.other_length;
        src_digits =
            from_index-AllDigits s.first_digit _ s.other c.other_digits
              (λ ys k. multiply_loop-AllDigits true false n amount 0 0 seg ys k);
        src_value =
            value_left s number h s.other c.other_length c.other_value true false amount room;
        quotient = h.quotient * 2 ^ amount;
        split = shifted s number h s.other c.other_length c.other_value true false amount room;
        below = below_left s number h s.other c.other_length c.other_value true false amount room;
        ordered =
            le-limited s.first_digit last (omega (arith, h.ordered))
              (omega (arith, h.ordered, h.inside));
        inside = limited_le last;
      }

  pub shift_left-IsCleared : IsCleared (shift_left amount s)
  unfolding shift_left
  shift_left-IsCleared = record {
    other_length =
        length-from_index s.first_digit _ s.src (length-clear_loop (s.end_digit - s.first_digit))
        ∙ h.src_length;
    other_digits =
        from_index-AllDigits s.first_digit _ s.src h.src_digits
          (clear_loop-AllDigits (s.end_digit - s.first_digit));
    other_value = value_cleared s number h;
  }

  -- The first digit moves up with the number.
  pub raise-IsSource :
      (w : ℕ)
      → number * 2 ^ 27 ≡ 10 ^ (s.first_digit + 27) * w
      → number * 2 ^ 27 < 10 ^ size
      → s.first_digit + 27 ≤ s.end_digit
      → IsSource (raise s) (number * 2 ^ 27)
  unfolding raise
  raise-IsSource w split room ordered =
      let n = s.end_digit - s.first_digit in
      let seg = drop s.first_digit s.src in
      let last =
        s.end_digit + (multiply_loop false false n 27 0 0 seg (drop s.first_digit s.other)).1 in
      record {
        src_length =
            length-from_index s.first_digit _ s.other
              (λ ys. length-multiply_loop false false n 27 0 0 seg ys)
            ∙ c.other_length;
        src_digits =
            from_index-AllDigits s.first_digit _ s.other c.other_digits
              (λ ys k. multiply_loop-AllDigits false false n 27 0 0 seg ys k);
        src_value = value_left s number h s.other c.other_length c.other_value false false 27 room;
        quotient = w;
        split = split;
        below = below_left s number h s.other c.other_length c.other_value false false 27 room;
        ordered = le-limited (s.first_digit + 27) last (omega arith) (omega (arith, h.inside));
        inside = limited_le last;
      }

pub raise-end : (s : Digits) → s.end_digit ≤ size → s.end_digit ≤ (raise s).end_digit
unfolding raise
raise-end s h =
    let n = s.end_digit - s.first_digit in
    let loop =
      multiply_loop false false n 27 0 0 (drop s.first_digit s.src) (drop s.first_digit s.other) in
    le-limited s.end_digit (s.end_digit + loop.1) (omega arith) h
