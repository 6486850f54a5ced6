-- ===== src/Double/Interval.antt =====
-- common/strformat.c, TW_WriteDouble up to the shift to the exponent: the source channel holds the weight of the
-- lowest mantissa bit.
use native.Mathlib.Nat.{
  one-le-pow, pow-le-pow_right, mul-le-mul_right, mul-lt-mul_of_pos_right, pow-suc,
}
use libtwilight.Prelude.{
  ℕ, zero, suc, ◌+◌, ◌-◌, ◌*◌, ◌/◌, ◌%◌, ◌^◌, ◌<◌, ◌≤◌, ◌≡◌, inl, inr, refl, ap, sym, ◌∙◌, arith,
  true, false, List, [], ◌∷◌, ◌++◌, length-replicate, replicate, Bool-cases, ltb, ltb→lt, ◌==◌,
  if◌then◌else◌,
}
use libtwilight.Double.{
  size, shift_left, shift_right, repeat_shift, shift_interval, initial_digits, epsilon_digits,
}
use libtwilight.Double.Value.{value, AllDigits, pow_add, pow_ten}
use libtwilight.Double.Channel.{IsCleared}
use libtwilight.Double.Ready.{
  IsReady, left-IsReady, right-IsReady, repeat_left-IsReady, repeat_right-IsReady, same-IsReady,
}

-- The weight of the lowest mantissa bit, in units of 10^-1074.
unfoldable pub interval : ℕ → ℕ
interval exponent = 2 ^ (exponent - 1) * 5 ^ 1074

interval-add : (e k : ℕ) → 1 ≤ e → interval e * 2 ^ k ≡ interval (e + k)
unfolding interval
interval-add e k h =
    let more : e + k - 1 ≡ e - 1 + k = omega arith in rw (more, pow_add 2 (e - 1) k) (grind arith)

split_bound : (e n : ℕ) → 1 ≤ e → e ≤ 972 + n → 2 ^ 53 * (2 ^ (e - 1) * 5 ^ n) ≤ 2 ^ 1024 * 10 ^ n
split_bound e n h k =
    let parts : 2 ^ 53 * (2 ^ (e - 1) * 5 ^ n) ≡ 2 ^ (53 + (e - 1)) * 5 ^ n =
      rw (pow_add 2 53 (e - 1)) (grind arith) in
    let whole : 2 ^ 1024 * 10 ^ n ≡ 2 ^ (1024 + n) * 5 ^ n =
      rw (pow_add 2 1024 n, pow_ten n) (grind arith) in
    let le : 2 ^ (53 + (e - 1)) ≤ 2 ^ (1024 + n) =
      pow-le-pow_right {n = 2} (omega arith) {i = 53 + (e - 1)} {j = 1024 + n} (omega arith) in
    rw (parts, whole) (mul-le-mul_right (5 ^ n) le)

-- There is room for the whole mantissa, and so for a carry.
pub interval-bound : (e : ℕ) → 1 ≤ e → e ≤ 2046 → 2 ^ 53 * interval e ≤ 2 ^ 1024 * 10 ^ 1074
unfolding interval
interval-bound e h k = split_bound e 1074 (omega arith) (omega arith)

-- 2^1024 is below 10^309.
pub interval-room : (e : ℕ) → 1 ≤ e → e ≤ 2046 → 2 ^ 53 * interval e < 10 ^ size
interval-room e h k =
    let top : 2 ^ 1024 * 10 ^ 1074 < 10 ^ 309 * 10 ^ 1074 =
      mul-lt-mul_of_pos_right (ltb→lt (2 ^ 1024) (10 ^ 309) refl)
        (one-le-pow 1074 10 (omega arith)) in
    let whole : 10 ^ 309 * 10 ^ 1074 ≡ 10 ^ size = sym (pow_add 10 309 1074) in
    omega (arith, interval-bound e h k, whole, top)

value_after_zeros : (n : ℕ) (xs : List ℕ) → value (replicate n 0 ++ xs) ≡ 10 ^ n * value xs
value_after_zeros zero xs = omega arith
value_after_zeros (suc n) xs = rw (pow-suc 10 n) (grind (arith, value_after_zeros n xs))

pub value_before_zeros : (n : ℕ) (xs : List ℕ) → value (xs ++ replicate n 0) ≡ value xs
value_before_zeros zero [] = refl
value_before_zeros (suc n) [] = omega (arith, value_before_zeros n [])
value_before_zeros n (x ∷ xs) = omega (arith, value_before_zeros n xs)

replicate-AllDigits : (n : ℕ) (xs : List ℕ) → AllDigits xs → AllDigits (replicate n 0 ++ xs)
replicate-AllDigits zero xs h = h
replicate-AllDigits (suc n) xs h = (omega arith, replicate-AllDigits n xs h)

pub append-AllDigits : (xs ys : List ℕ) → AllDigits xs → AllDigits ys → AllDigits (xs ++ ys)
append-AllDigits [] ys h k = k
append-AllDigits (x ∷ xs) ys h k = (h.0, append-AllDigits xs ys h.1 k)

zeros-AllDigits : (n : ℕ) → AllDigits (replicate n 0)
zeros-AllDigits zero = tt
zeros-AllDigits (suc n) = (omega arith, zeros-AllDigits n)

epsilon_value : value epsilon_digits ≡ 5 ^ 52
unfolding epsilon_digits
epsilon_value = refl

epsilon-AllDigits : AllDigits epsilon_digits
unfolding epsilon_digits
epsilon-AllDigits = ground arith

initial_digits-IsReady : IsReady initial_digits (interval 1023) 1022
unfolding initial_digits interval
initial_digits-IsReady =
    let zeros : IsCleared initial_digits = record {
      other_length = length-replicate {A = ℕ} size 0;
      other_digits = zeros-AllDigits size;
      other_value = value_before_zeros size [];
    } in
    record {
      source = record {
        src_length = refl;
        src_digits = replicate-AllDigits 1022 (epsilon_digits ++ replicate 324 0) (
            append-AllDigits epsilon_digits (replicate 324 0) epsilon-AllDigits
              (zeros-AllDigits 324));
        src_value =
            value_after_zeros 1022 (epsilon_digits ++ replicate 324 0)
            ∙ ap (λ t. 10 ^ 1022 * t) (value_before_zeros 324 epsilon_digits ∙ epsilon_value);
        quotient = 5 ^ 52;
        split = refl;
        below = ltb→lt (interval 1023) (10 ^ 1059) refl;
        ordered = omega arith;
        inside = omega arith;
      };
      cleared = zeros;
      empty = record {
        total_length = zeros.other_length;
        total_digits = zeros.other_digits;
        total_value = zeros.other_value;
      };
      first_is = refl;
      last_is = omega arith;
    }

right_shift-IsReady :
    (e right : ℕ)
    → 1 ≤ e
    → e + right ≡ 1023
    → let shifted = repeat_shift (right / 8) (shift_right 8) initial_digits in
      IsReady
        (if right % 8 == 0 then shifted else shift_right (right % 8) shifted)
        (interval e)
        (e - 1)
right_shift-IsReady e right h sum =
    let rest = right % 8 in
    let whole : e + rest + 8 * (right / 8) ≡ 1023 = omega arith in
    let start : interval 1023 ≡ interval e * 2 ^ rest * 2 ^ (8 * (right / 8)) = sym (
      ap (λ t. t * 2 ^ (8 * (right / 8))) (interval-add e rest h)
      ∙ interval-add (e + rest) (8 * (right / 8)) (omega arith)
      ∙ ap interval whole) in
    let coarse =
      repeat_right-IsReady (right / 8) 8 initial_digits (interval e * 2 ^ rest) (e - 1 + rest)
        (same-IsReady start (omega arith) initial_digits-IsReady) in
    elim (Bool-cases (rest == 0)) [
      | inl b ↦
          let none : rest ≡ 0 = ground arith in
          let same : interval e * 2 ^ rest ≡ interval e = rw none (omega arith) in
          rw b (same-IsReady same (omega arith) coarse)
      | inr b ↦ rw b (
          right-IsReady rest (repeat_shift (right / 8) (shift_right 8) initial_digits) (interval e)
            (e - 1) coarse)
    ]

left_shift-IsReady :
    (e left : ℕ)
    → e ≤ 2046
    → e ≡ 1023 + left
    → let shifted = repeat_shift (left / 27) (shift_left 27) initial_digits in
      IsReady (if left % 27 == 0 then shifted else shift_left (left % 27) shifted) (interval e) 1022
left_shift-IsReady e left h sum =
    let rest = left % 27 in
    let coarse_e = 1023 + 27 * (left / 27) in
    let whole : coarse_e + rest ≡ e = omega arith in
    let first : interval 1023 * 2 ^ (27 * (left / 27)) ≡ interval coarse_e =
      interval-add 1023 (27 * (left / 27)) (omega arith) in
    let coarse = same-IsReady first refl (
      repeat_left-IsReady (left / 27) 27 initial_digits (interval 1023) 1022 initial_digits-IsReady
        (rw first (omega (arith, interval-room coarse_e (omega arith) (omega arith))))) in
    let last : interval coarse_e * 2 ^ rest ≡ interval e =
      interval-add coarse_e rest (omega arith) ∙ ap interval whole in
    elim (Bool-cases (rest == 0)) [
      | inl b ↦
          let none : rest ≡ 0 = ground arith in
          rw b (same-IsReady (ap interval (omega arith)) refl coarse)
      | inr b ↦ rw b (
          same-IsReady last refl (
            left-IsReady rest (repeat_shift (left / 27) (shift_left 27) initial_digits)
              (interval coarse_e) 1022 coarse
              (rw last (omega (arith, interval-room e (omega arith) h)))))
    ]

unfoldable pub smaller : ℕ → ℕ → ℕ
smaller a b = if ltb a b then a else b

pub smaller-bounds : (a b : ℕ) → (smaller a b ≤ a) × (smaller a b ≤ b)
unfolding smaller
smaller-bounds a b = elim (Bool-cases (ltb a b)) [
  | inl e ↦ rw e (omega arith, ground arith)
  | inr e ↦ rw e (ground arith, omega arith)
]

pub shift_interval-IsReady :
    (e : ℕ)
    → 1 ≤ e
    → e ≤ 2046
    → IsReady (shift_interval e initial_digits) (interval e) (smaller (e - 1) 1022)
unfolding shift_interval smaller
shift_interval-IsReady e h k = elim (Bool-cases (ltb e 1023)) [
  | inl b ↦
      let less : ltb (e - 1) 1022 ≡ true = ground arith in
      rw (b, less) (right_shift-IsReady e (1023 - e) h (ground arith))
  | inr b ↦
      let more : ltb (e - 1) 1022 ≡ false = ground arith in
      elim (Bool-cases (ltb 1023 e)) [
        | inl c ↦ rw (b, more, c) (left_shift-IsReady e (e - 1023) k (ground arith))
        | inr c ↦
            rw (b, more, c) (same-IsReady (ap interval (ground arith)) refl initial_digits-IsReady)
      ]
]
