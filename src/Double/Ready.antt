-- ===== src/Double/Ready.antt =====
-- common/strformat.c, TW_WriteDouble: one shift of the interval, and shifts by the same amount.
use mathlib.Core.Path.{subst}
use native.Mathlib.Nat.{one-le-pow, le-mul_of_pos_right, mul-suc, pow-zero}
use libtwilight.Prelude.{ℕ, zero, suc, ◌+◌, ◌-◌, ◌*◌, ◌^◌, ◌<◌, ◌≤◌, ◌≡◌, arith, true, false, drop}
use libtwilight.Double.{Digits, multiply_loop, size, shift_left, shift_right, repeat_shift}
use libtwilight.Double.Value.{pow_add}
use libtwilight.Double.Channel.{IsSource, IsCleared, IsTotal}
use libtwilight.Double.Steps.{shift_left-IsSource, shift_left-IsCleared, le-limited}
use libtwilight.Double.Halving.{shift_right-IsSource, shift_right-IsCleared}

-- The state between two shifts.
pub record IsReady (s : Digits) (number first : ℕ) : Type 0 where
  pub source : IsSource s number
  pub cleared : IsCleared s
  pub empty : IsTotal s 0
  pub first_is : s.first_digit ≡ first
  pub last_is : 1059 ≤ s.end_digit

pub left-IsReady :
    (amount : ℕ) (s : Digits) (number first : ℕ)
    → IsReady s number first
    → number * 2 ^ amount < 10 ^ size
    → IsReady (shift_left amount s) (number * 2 ^ amount) first
unfolding shift_left
left-IsReady amount s number first h room =
    let n = s.end_digit - s.first_digit in
    let loop =
      multiply_loop true false n amount 0 0 (drop s.first_digit s.src)
        (drop s.first_digit s.other) in
    record {
      source = shift_left-IsSource amount s number h.source h.cleared room;
      cleared = shift_left-IsCleared amount s number h.source h.cleared;
      empty = record {
        total_length = h.empty.total_length;
        total_digits = h.empty.total_digits;
        total_value = h.empty.total_value;
      };
      first_is = h.first_is;
      last_is = le-limited 1059 (s.end_digit + loop.1) (omega (arith, h.last_is)) (omega arith);
    }

pub right-IsReady :
    (amount : ℕ) (s : Digits) (half first : ℕ)
    → IsReady s (half * 2 ^ amount) (first + amount)
    → IsReady (shift_right amount s) half first
unfolding shift_right
right-IsReady amount s half first h =
    let low : amount ≤ s.first_digit = omega (arith, h.first_is) in
    record {
      source = shift_right-IsSource amount s half h.source h.cleared low;
      cleared = shift_right-IsCleared amount s half h.source h.cleared low;
      empty = record {
        total_length = h.empty.total_length;
        total_digits = h.empty.total_digits;
        total_value = h.empty.total_value;
      };
      first_is = omega (arith, h.first_is);
      last_is = h.last_is;
    }

pub repeat_left-IsReady :
    (k amount : ℕ) (s : Digits) (number first : ℕ)
    → IsReady s number first
    → number * 2 ^ (amount * k) < 10 ^ size
    → IsReady (repeat_shift k (shift_left amount) s) (number * 2 ^ (amount * k)) first
unfolding repeat_shift
repeat_left-IsReady zero amount s number first h room =
    let none : amount * zero ≡ zero = omega arith in
    let same : number ≡ number * 2 ^ (amount * zero) = rw (none, pow-zero 2) (omega arith) in
    subst (λ v. IsReady s v first) same h
repeat_left-IsReady (suc k) amount s number first h room =
    let more : amount * suc k ≡ amount + amount * k = omega (arith, mul-suc amount k) in
    let same : number * 2 ^ amount * 2 ^ (amount * k) ≡ number * 2 ^ (amount * suc k) =
      rw (more, pow_add 2 amount (amount * k)) (grind arith) in
    let grows : number * 2 ^ amount ≤ number * 2 ^ amount * 2 ^ (amount * k) =
      le-mul_of_pos_right (number * 2 ^ amount) (one-le-pow (amount * k) 2 (omega arith)) in
    subst (λ v. IsReady (repeat_shift k (shift_left amount) (shift_left amount s)) v first) same
      (repeat_left-IsReady k amount (shift_left amount s) (number * 2 ^ amount) first
        (left-IsReady amount s number first h (omega arith)) (omega arith))

pub repeat_right-IsReady :
    (k amount : ℕ) (s : Digits) (half first : ℕ)
    → IsReady s (half * 2 ^ (amount * k)) (first + amount * k)
    → IsReady (repeat_shift k (shift_right amount) s) half first
unfolding repeat_shift
repeat_right-IsReady zero amount s half first h =
    let none : amount * zero ≡ zero = omega arith in
    let same : half * 2 ^ (amount * zero) ≡ half = rw (none, pow-zero 2) (omega arith) in
    let start : first + amount * zero ≡ first = omega arith in
    subst (λ v. IsReady s half v) start (subst (λ v. IsReady s v (first + amount * zero)) same h)
repeat_right-IsReady (suc k) amount s half first h =
    let more : amount * suc k ≡ amount * k + amount = omega (arith, mul-suc amount k) in
    let same : half * 2 ^ (amount * suc k) ≡ half * 2 ^ (amount * k) * 2 ^ amount =
      rw (more, pow_add 2 (amount * k) amount) (grind arith) in
    let start : first + amount * suc k ≡ first + amount * k + amount = omega (arith, more) in
    repeat_right-IsReady k amount (shift_right amount s) half first (
      right-IsReady amount s (half * 2 ^ (amount * k)) (first + amount * k) (
        subst (λ v. IsReady s (half * 2 ^ (amount * k) * 2 ^ amount) v) start
          (subst (λ v. IsReady s v (first + amount * suc k)) same h)))

-- Equal numbers and first digits stand for each other.
pub same-IsReady : {s : Digits} {v w a b : ℕ} → v ≡ w → a ≡ b → IsReady s v a → IsReady s w b
same-IsReady {s} {v} {w} {a} {b} e f h =
    subst (λ x. IsReady s w x) f (subst (λ x. IsReady s x a) e h)
