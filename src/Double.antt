-- ===== src/Double.antt =====
-- common/strformat.c, TW_WriteDouble: the decimal digits of a double by arithmetic on digit arrays. A channel of
-- the array is a list of its 1383 digits from the lowest on, where digit 1074 counts units. The code treats the
-- bits of the double as a 64-bit word. The minimal width and the precision are not negative.
pub mod Value
pub mod Multiply
pub mod Shift
pub mod Channel
pub mod Steps
pub mod Add
pub mod Halving
pub mod Ready
pub mod Interval
pub mod Widened
pub mod Bits
pub mod Exact
pub mod Text
use libtwilight.Prelude.{
  ℕ, zero, suc, ◌+◌, ◌-◌, ◌*◌, ◌/◌, ◌%◌, ◌^◌, Bool, true, false, not, ◌&&◌, ◌||◌, List, [], ◌∷◌,
  ◌++◌, ltb, leb, ◌==◌, if◌then◌else◌, length, get_or, take, drop, replicate, codes,
}
use libtwilight.Integer.{emit}

-- `f` applied to a list from an index on.
pub from_index : ℕ → (List ℕ → List ℕ) → List ℕ → List ℕ
from_index zero f xs = f xs
from_index (suc p) f [] = []
from_index (suc p) f (x ∷ xs) = x ∷ from_index p f xs

-- A digit that a loop adds to, or overwrites.
abbrev pub kept : Bool → ℕ → ℕ
kept true x = x
kept false x = 0

-- `while ((mCarry > 0 || aCarry > 0) && j < 1383)`, from index `j` on: the digits, and how many rounds were
-- made. The digits that are there are added if `keep` says so. With the digits of a number in place of `mCarry`
-- it is also the loop `while ((digits > 0 || carry > 0) && j < 1383)` of `SHIFT_DIGITS_RIGHT`.
pub carry_loop : Bool → ℕ → ℕ → List ℕ → List ℕ × ℕ
carry_loop keep m_carry a_carry [] = ([], 0)
carry_loop keep m_carry a_carry (x ∷ xs) =
    let d_a = kept keep x + m_carry % 10 + a_carry in
    let (rest, rounds) = carry_loop keep (m_carry / 10) (d_a / 10) xs in
    if m_carry == 0 && a_carry == 0 then (x ∷ xs, 0) else (d_a % 10 ∷ rest, suc rounds)

-- The loops of `SHIFT_DIGITS_LEFT`, `ADD_MANTISSA_MULTIPLE` and of the shift by 27 bits over `n` digits of the
-- source channel, with the loop for the carries behind them. The first adds to the digits of the other channel
-- but overwrites them by the carries, the second adds to both, the third overwrites both.
pub multiply_loop : Bool → Bool → ℕ → ℕ → ℕ → ℕ → List ℕ → List ℕ → List ℕ × ℕ
unfolding carry_loop
multiply_loop keep keep_carry zero amount m_carry a_carry src dst =
    carry_loop keep_carry m_carry a_carry dst
multiply_loop keep keep_carry (suc n) amount m_carry a_carry [] dst = (dst, 0)
multiply_loop keep keep_carry (suc n) amount m_carry a_carry (d ∷ src) [] = ([], 0)
multiply_loop keep keep_carry (suc n) amount m_carry a_carry (d ∷ src) (x ∷ dst) =
    let d_m = d * 2 ^ amount + m_carry in
    let d_a = kept keep x + d_m % 10 + a_carry in
    let (rest, rounds) = multiply_loop keep keep_carry n amount (d_m / 10) (d_a / 10) src dst in
    (d_a % 10 ∷ rest, rounds)

abbrev pub on_tail : (List ℕ → List ℕ) → List ℕ → List ℕ
on_tail f [] = []
on_tail f (x ∷ xs) = x ∷ f xs

-- `SHIFT_DIGITS_RIGHT`: the digits of the source from an index on, and the other channel from `amount` digits
-- below that index on.
pub right_loop : ℕ → ℕ → ℕ → List ℕ → List ℕ → List ℕ
unfolding carry_loop
right_loop zero amount to_10th src dst = dst
right_loop (suc n) amount to_10th [] dst = dst
right_loop (suc n) amount to_10th (d ∷ src) dst =
    on_tail (right_loop n amount to_10th src) (carry_loop true (d * to_10th / 2 ^ amount) 0 dst).0

-- `*srcP = 0` in these loops.
pub clear_loop : ℕ → List ℕ → List ℕ
clear_loop zero src = src
clear_loop (suc n) [] = []
clear_loop (suc n) (d ∷ src) = 0 ∷ clear_loop n src

-- The channel `src`, the channel `src ^ 1`, channel 2, and the bounds of the digits in use.
pub record Digits : Type 0 where
  pub src : List ℕ
  pub other : List ℕ
  pub total : List ℕ
  pub first_digit : ℕ
  pub end_digit : ℕ

abbrev pub size : ℕ
size = 1383

-- `if (endDigit > 1383) endDigit = 1383`.
abbrev pub limited : ℕ → ℕ
limited end_digit = if ltb size end_digit then size else end_digit

-- `SHIFT_DIGITS_RIGHT(amount, 10^amount)` and `src ^= 1`.
pub shift_right : ℕ → Digits → Digits
unfolding from_index right_loop clear_loop
shift_right amount s =
    let n = s.end_digit - s.first_digit in
    record s {
      src =
          from_index (s.first_digit - amount)
            (right_loop n amount (10 ^ amount) (drop s.first_digit s.src)) s.other;
      other = from_index s.first_digit (clear_loop n) s.src;
      first_digit = s.first_digit - amount;
    }

-- `SHIFT_DIGITS_LEFT(amount)` and `src ^= 1`.
pub shift_left : ℕ → Digits → Digits
unfolding from_index multiply_loop clear_loop
shift_left amount s =
    let n = s.end_digit - s.first_digit in
    let loop = multiply_loop true false n amount 0 0 (drop s.first_digit s.src) in
    record s {
      src = from_index s.first_digit (λ dst. (loop dst).0) s.other;
      other = from_index s.first_digit (clear_loop n) s.src;
      end_digit = limited (s.end_digit + (loop (drop s.first_digit s.other)).1);
    }

-- `while (toShift >= 8)` and `while (toShift >= 27)`, for so many rounds.
pub repeat_shift : ℕ → (Digits → Digits) → Digits → Digits
repeat_shift zero shift s = s
repeat_shift (suc n) shift s = repeat_shift n shift (shift s)

-- The shift to the exponent.
pub shift_interval : ℕ → Digits → Digits
unfolding shift_right shift_left repeat_shift
shift_interval exponent s =
    let right = 1023 - exponent in
    let left = exponent - 1023 in
    let right8 = repeat_shift (right / 8) (shift_right 8) s in
    let left27 = repeat_shift (left / 27) (shift_left 27) s in
    if ltb exponent 1023
    then (if right % 8 == 0 then right8 else shift_right (right % 8) right8)
    else if ltb 1023 exponent
    then (if left % 27 == 0 then left27 else shift_left (left % 27) left27)
    else s

-- `ADD_MANTISSA_MULTIPLE(2, src, amount)`.
pub add_multiple : ℕ → Digits → Digits
unfolding from_index multiply_loop
add_multiple amount s =
    let n = s.end_digit - s.first_digit in
    record s {
      total =
          from_index s.first_digit
            (λ dst. (multiply_loop true true n amount 0 0 (drop s.first_digit s.src) dst).0)
            s.total;
    }

-- The loops over the mantissa bits, from bit `i` on.
pub add_bits : (ℕ → Bool) → ℕ → ℕ → Digits → Digits
unfolding add_multiple
add_bits is_set zero i s = s
add_bits is_set (suc n) i s = add_bits is_set n (suc i) (if is_set i then add_multiple i s else s)

-- The block that shifts the interval by 27 bits.
pub raise : Digits → Digits
unfolding from_index multiply_loop
raise s =
    let n = s.end_digit - s.first_digit in
    let loop = multiply_loop false false n 27 0 0 (drop s.first_digit s.src) in
    record s {
      src = from_index s.first_digit (λ dst. (loop dst).0) s.other;
      other = s.src;
      first_digit = s.first_digit + 27;
      end_digit = limited (s.end_digit + (loop (drop s.first_digit s.other)).1);
    }

-- The digits of 2^-52 from the lowest on, as the array is filled with them.
pub epsilon_digits : List ℕ
epsilon_digits =
    5 ∷ 2 ∷ 6 ∷ 0 ∷ 4 ∷ 6 ∷ 1 ∷ 8 ∷ 1 ∷ 6 ∷ 3 ∷ 3 ∷ 3 ∷ 6 ∷ 2 ∷ 7 ∷ 4 ∷ 8 ∷ 0 ∷ 8 ∷ 0 ∷ 3 ∷ 1 ∷ 3
    ∷ 0 ∷ 5 ∷ 2 ∷ 9 ∷ 4 ∷ 0 ∷ 6 ∷ 4 ∷ 4 ∷ 0 ∷ 2 ∷ 2 ∷ 2 ∷ []

pub initial_digits : Digits
unfolding epsilon_digits
initial_digits = record {
  src = replicate 1022 0 ++ (epsilon_digits ++ replicate 324 0);
  other = replicate size 0;
  total = replicate size 0;
  first_digit = 1022;
  end_digit = 1059;
}

-- `(mantissa >> i) & 1ull`.
abbrev pub is_bit : ℕ → ℕ → Bool
is_bit word i = word / 2 ^ i % 2 == 1

-- From the shift to the end of the second loop over the mantissa: channel 2 holds the digits of the value.
pub digits_of : ℕ → ℕ → Digits
unfolding initial_digits shift_interval add_bits raise
digits_of exponent mantissa =
    let s = shift_interval exponent initial_digits in
    let wide : Digits = record s { end_digit = limited (s.end_digit + 52) } in
    let low = add_bits (is_bit mantissa) 27 0 wide in
    let high = add_bits (λ i. (i == 25) || is_bit (mantissa / 2 ^ 27) i) 26 0 (raise low) in
    record high { first_digit = high.first_digit - 27 }
