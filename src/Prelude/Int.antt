-- ===== src/Prelude/Int.antt =====
-- The `int`s that may be negative: widths, counts and sizes that a caller passes.
use Prim.Native.Nat.{ℕ, suc, ◌+◌, ◌-◌, ◌/◌, ◌%◌, ◌^◌, ◌<◌}
use mathlib.Core.Path.{◌≡◌}
use mathlib.Core.Bool.{Bool, true, false}
use native.Mathlib.Omega.{arith}
use libtwilight.Prelude.Tests.{ltb, ◌==◌, if◌then◌else◌}

-- `negsuc n` is -(n + 1).
pub data ℤ : Type 0 where
  pos : ℕ → ℤ
  negsuc : ℕ → ℤ

-- What a loop `for (i = 0; i < n; i++)` makes of its bound.
abbrev pub pos_part : ℤ → ℕ
pos_part (pos n) = n
pos_part (negsuc n) = 0

abbrev pub neg_part : ℤ → ℕ
neg_part (pos n) = 0
neg_part (negsuc n) = suc n

abbrev pub is_negative : ℤ → Bool
is_negative (pos n) = false
is_negative (negsuc n) = true

abbrev pub is_minus_one : ℤ → Bool
is_minus_one (pos n) = false
is_minus_one (negsuc n) = n == 0

-- The `int` whose 32 bits are those of `w`.
abbrev pub signed32 : ℕ → ℤ
signed32 w = if ltb w (2 ^ 31) then pos w else negsuc (2 ^ 32 - w - 1)

-- `a - b` as an `int`.
abbrev pub diff : ℕ → ℕ → ℤ
diff a b = if ltb a b then negsuc (b - a - 1) else pos (a - b)

-- The sum; the `int` that the program computes is this one if it fits, and `add32` in general.
abbrev pub add : ℤ → ℤ → ℤ
add (pos a) (pos b) = pos (a + b)
add (pos a) (negsuc b) = diff a (suc b)
add (negsuc a) (pos b) = diff b (suc a)
add (negsuc a) (negsuc b) = negsuc (a + b + 1)

-- A 32-bit word with the bits of an integer.
abbrev pub bits_of_int : ℤ → ℕ
bits_of_int (pos n) = n % 2 ^ 32
bits_of_int (negsuc n) = 2 ^ 32 - 1 - n % 2 ^ 32

-- `a + b` of two `int`s, which wraps around.
unfoldable pub add32 : ℤ → ℤ → ℤ
add32 a b = signed32 (bits_of_int (add a b))

-- The integer is the value of an `int`.
abbrev pub IsInt : ℤ → Type 0
IsInt (pos n) = n < 2 ^ 31
IsInt (negsuc n) = n < 2 ^ 31

pub signed32-bits : (a : ℤ) → IsInt a → signed32 (bits_of_int a) ≡ a
signed32-bits (pos n) h = ground arith
signed32-bits (negsuc n) h = ground arith

pub add32-add : (a b : ℤ) → IsInt (add a b) → add32 a b ≡ add a b
unfolding add32
add32-add a b h = signed32-bits (add a b) h

-- `n < a`.
abbrev pub is_above : ℕ → ℤ → Bool
is_above n (pos a) = ltb n a
is_above n (negsuc a) = false

-- `a < n`.
abbrev pub is_below : ℤ → ℕ → Bool
is_below (pos a) n = ltb a n
is_below (negsuc a) n = true

-- Division by a positive number, towards 0.
abbrev pub quotient : ℤ → ℕ → ℤ
quotient (pos a) n = pos (a / n)
quotient (negsuc a) n = if suc a / n == 0 then pos 0 else negsuc (suc a / n - 1)

-- `if (x > top) x = top; if (x < 0) x = 0`.
abbrev pub clamp : ℕ → ℤ → ℕ
clamp top (pos a) = if ltb top a then top else a
clamp top (negsuc a) = 0
