-- ===== src/Double/Widened.antt =====
-- common/strformat.c, TW_WriteDouble between the shift to the exponent and the first loop over the mantissa.
use native.Mathlib.Nat.{lt_of_lt_of_le, pow-le-pow_right}
use libtwilight.Prelude.{ℕ, ◌+◌, ◌-◌, ◌*◌, ◌^◌, ◌≤◌, ◌≡◌, refl, ap, ap₂, ◌∙◌, arith}
use libtwilight.Double.{Digits, limited, initial_digits, shift_interval}
use libtwilight.Double.Value.{pow_add, pow_ten}
use libtwilight.Double.Steps.{le-limited, limited_le}
use libtwilight.Double.Ready.{IsReady}
use libtwilight.Double.Interval.{interval, smaller, shift_interval-IsReady}

-- The interval is a multiple of 10^27 times its first digit's weight after the shift by 27 bits.
parts :
    (first p n : ℕ)
    → first ≤ p
    → first ≤ n
    → 2 ^ p * 5 ^ n ≡ 10 ^ first * (2 ^ (p - first) * 5 ^ (n - first))
parts first p n h k =
    let twos : 2 ^ p ≡ 2 ^ first * 2 ^ (p - first) =
      let whole : p ≡ first + (p - first) = omega arith in
      ap (λ t. 2 ^ t) whole ∙ pow_add 2 first (p - first) in
    let fives : 5 ^ n ≡ 5 ^ first * 5 ^ (n - first) =
      let whole : n ≡ first + (n - first) = omega arith in
      ap (λ t. 5 ^ t) whole ∙ pow_add 5 first (n - first) in
    ap₂ (λ a b. a * b) twos fives ∙ rw (pow_ten first) (grind arith)

multiple :
    (first p n : ℕ)
    → first ≤ p
    → first + 27 ≤ n
    → 2 ^ p * 5 ^ n * 2 ^ 27 ≡ 10 ^ (first + 27) * (2 ^ (p - first) * 5 ^ (n - first - 27))
multiple first p n h k =
    let whole : p + 27 - (first + 27) ≡ p - first = omega arith in
    let rest : n - (first + 27) ≡ n - first - 27 = omega arith in
    let swap : 2 ^ p * 5 ^ n * 2 ^ 27 ≡ 2 ^ (p + 27) * 5 ^ n = rw (pow_add 2 p 27) (grind arith) in
    swap ∙ parts (first + 27) (p + 27) n (omega arith) k ∙ rw (whole, rest) refl

pub interval_split :
    (e first : ℕ)
    → first ≤ e - 1
    → first ≤ 1022
    → interval e ≡ 10 ^ first * (2 ^ (e - 1 - first) * 5 ^ (1074 - first))
unfolding interval
interval_split e first h k = parts first (e - 1) 1074 h (omega arith)

pub raise_split :
    (e first : ℕ)
    → first ≤ e - 1
    → first ≤ 1022
    → interval e * 2 ^ 27 ≡ 10 ^ (first + 27) * (2 ^ (e - 1 - first) * 5 ^ (1074 - first - 27))
unfolding interval
raise_split e first h k = multiple first (e - 1) 1074 h (omega arith)

-- The state after the shift to the exponent, with `endDigit += 52`.
unfoldable pub widened : ℕ → Digits
widened e =
    let s = shift_interval e initial_digits in record s { end_digit = limited (s.end_digit + 52) }

pub widened-IsReady :
    (e : ℕ) → 1 ≤ e → e ≤ 2046 → IsReady (widened e) (interval e) (smaller (e - 1) 1022)
unfolding widened
widened-IsReady e h k =
    let s = shift_interval e initial_digits in
    let r = shift_interval-IsReady e h k in
    let wide : s.end_digit ≤ limited (s.end_digit + 52) =
      le-limited s.end_digit (s.end_digit + 52) (omega arith) r.source.inside in
    record {
      source = record {
        src_length = r.source.src_length;
        src_digits = r.source.src_digits;
        src_value = r.source.src_value;
        quotient = r.source.quotient;
        split = r.source.split;
        below = lt_of_lt_of_le r.source.below (
            pow-le-pow_right {n = 10} (omega arith) {i = s.end_digit}
              {j = limited (s.end_digit + 52)} wide);
        ordered = omega (arith, r.source.ordered, wide);
        inside = limited_le (s.end_digit + 52);
      };
      cleared = record {
        other_length = r.cleared.other_length;
        other_digits = r.cleared.other_digits;
        other_value = r.cleared.other_value;
      };
      empty = record {
        total_length = r.empty.total_length;
        total_digits = r.empty.total_digits;
        total_value = r.empty.total_value;
      };
      first_is = r.first_is;
      last_is = omega (arith, r.last_is, wide);
    }

pub widened-last : (e : ℕ) → 1 ≤ e → e ≤ 2046 → 1111 ≤ (widened e).end_digit
unfolding widened
widened-last e h k =
    let s = shift_interval e initial_digits in
    let r = shift_interval-IsReady e h k in
    le-limited 1111 (s.end_digit + 52) (omega (arith, r.last_is)) (omega arith)
