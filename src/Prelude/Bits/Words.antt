-- ===== src/Prelude/Bits/Words.antt =====
-- Single bits of a number, and what `|`, `&`, `~` and `1 << k` do to them, at every width.
use Prim.Native.Nat.{
  ℕ, zero, suc, ◌+◌, ◌-◌, ◌*◌, ◌/◌, ◌%◌, ◌^◌, ◌≤◌, ◌<◌, min, max, digits, bitwise, bit_and, bit_or,
  bit_and-bitwise, bit_or-bitwise,
}
use mathlib.Core.Path.{◌≡◌, refl, sym, ap, ◌∙◌}
use native.Mathlib.Omega.{arith}
use native.Mathlib.Nat.{pow-suc, one-le-pow, le_refl}
use native.Mathlib.Decide.{dec_le}
use mathlib.Core.Logic.{◌≢◌}
use libtwilight.Prelude.Tests.{leb, le→leb, lt→leb, if◌then◌else◌}

pub one_le_two_pow : (w : ℕ) → 1 ≤ 2 ^ w
one_le_two_pow w = one-le-pow w 2 (omega arith)

-- Bit `i` of `x`.
abbrev pub bit_at : ℕ → ℕ → ℕ
bit_at zero x = x % 2
bit_at (suc i) x = bit_at i (x / 2)

-- `~x` on words of `w` bits.
abbrev pub complement : ℕ → ℕ → ℕ
complement w x = 2 ^ w - 1 - x

-- The native operations stand for a recursion on digits with fuel, which more fuel does not change.
module _ (base : ℕ → ℕ) (combine : ℕ → ℕ → ℕ) where
  more_fuel :
      (x y have top : ℕ)
      → x ≤ have
      → have ≤ top
      → digits base combine have x y ≡ digits base combine top x y
  more_fuel zero y zero zero _ _ = refl
  more_fuel zero y zero (suc top) _ _ = refl
  more_fuel zero y (suc have) zero _ _ = refl
  more_fuel zero y (suc have) (suc top) _ _ = refl
  more_fuel (suc x) y zero top le _ = absurd (omega arith)
  more_fuel (suc x) y (suc have) zero _ le = absurd (omega arith)
  more_fuel (suc x) y (suc have) (suc top) le le' =
      ap (λ (t : ℕ). t * 2 + combine (suc x % 2) (y % 2))
        (more_fuel (suc x / 2) (y / 2) have top (omega arith) (omega arith))

  last_digit :
      (x y : ℕ)
      → bitwise base combine (suc x) y
        ≡ bitwise base combine (suc x / 2) (y / 2) * 2 + combine (suc x % 2) (y % 2)
  last_digit x y =
      omega (arith, more_fuel (suc x / 2) (y / 2) (suc x / 2) x (le_refl _) (omega arith))

pub or_lowest : (a b : ℕ) → bit_or a b ≡ bit_or (a / 2) (b / 2) * 2 + max (a % 2) (b % 2)
or_lowest zero b = omega (arith, bit_or-bitwise zero b, bit_or-bitwise 0 (b / 2))
or_lowest (suc a) b =
    bit_or-bitwise (suc a) b
    ∙ last_digit (λ y. y) max a b
    ∙ ap (λ (t : ℕ). t * 2 + max (suc a % 2) (b % 2)) (sym (bit_or-bitwise (suc a / 2) (b / 2)))

pub and_lowest : (a b : ℕ) → bit_and a b ≡ bit_and (a / 2) (b / 2) * 2 + min (a % 2) (b % 2)
and_lowest zero b = omega (arith, bit_and-bitwise zero b, bit_and-bitwise 0 (b / 2))
and_lowest (suc a) b =
    bit_and-bitwise (suc a) b
    ∙ last_digit (λ y. 0) min a b
    ∙ ap (λ (t : ℕ). t * 2 + min (suc a % 2) (b % 2)) (sym (bit_and-bitwise (suc a / 2) (b / 2)))

pub bit_at-lt : (i x : ℕ) → bit_at i x < 2
bit_at-lt zero x = omega arith
bit_at-lt (suc i) x = bit_at-lt i (x / 2)

pub bit_at-bit_or : (i a b : ℕ) → bit_at i (bit_or a b) ≡ max (bit_at i a) (bit_at i b)
bit_at-bit_or zero a b = omega (arith, or_lowest a b)
bit_at-bit_or (suc i) a b =
    let half : bit_or a b / 2 ≡ bit_or (a / 2) (b / 2) = omega (arith, or_lowest a b) in
    rw half (bit_at-bit_or i (a / 2) (b / 2))

pub bit_at-bit_and : (i a b : ℕ) → bit_at i (bit_and a b) ≡ min (bit_at i a) (bit_at i b)
bit_at-bit_and zero a b = omega (arith, and_lowest a b)
bit_at-bit_and (suc i) a b =
    let half : bit_and a b / 2 ≡ bit_and (a / 2) (b / 2) = omega (arith, and_lowest a b) in
    rw half (bit_at-bit_and i (a / 2) (b / 2))

-- Numbers of `w` bits stay so under `|` and `&`.
pub bit_or-lt : (w a b : ℕ) → a < 2 ^ w → b < 2 ^ w → bit_or a b < 2 ^ w
bit_or-lt zero a b ha hb =
    let ea : a ≡ 0 = omega arith in let eb : b ≡ 0 = omega arith in rw (ea, eb) (omega arith)
bit_or-lt (suc w) a b ha hb = omega (
  arith,
  pow-suc 2 w,
  or_lowest a b,
  bit_or-lt w (a / 2) (b / 2) (omega (arith, pow-suc 2 w)) (omega (arith, pow-suc 2 w)),
)

pub bit_and-lt : (w a b : ℕ) → a < 2 ^ w → bit_and a b < 2 ^ w
bit_and-lt zero a b ha = let ea : a ≡ 0 = omega arith in rw ea (omega (arith, bit_and-bitwise 0 b))
bit_and-lt (suc w) a b ha =
    omega (
      arith,
      pow-suc 2 w,
      and_lowest a b,
      bit_and-lt w (a / 2) (b / 2) (omega (arith, pow-suc 2 w)),
    )

-- Two words with the same bits are equal.
pub eq_of_bits :
    (w a b : ℕ) → a < 2 ^ w → b < 2 ^ w → ((i : ℕ) → i < w → bit_at i a ≡ bit_at i b) → a ≡ b
eq_of_bits zero a b ha hb h = omega arith
eq_of_bits (suc w) a b ha hb h = omega (
  arith,
  pow-suc 2 w,
  h 0 (omega arith),
  eq_of_bits w (a / 2) (b / 2) (omega (arith, pow-suc 2 w)) (omega (arith, pow-suc 2 w))
      (λ i hi. h (suc i) (omega arith)),
)

pub bit_at-zero : (i : ℕ) → bit_at i 0 ≡ 0
bit_at-zero zero = refl
bit_at-zero (suc i) = bit_at-zero i

pub bit_at-pow_self : (j : ℕ) → bit_at j (2 ^ j) ≡ 1
bit_at-pow_self zero = refl
bit_at-pow_self (suc j) =
    let half : 2 ^ suc j / 2 ≡ 2 ^ j = omega (arith, pow-suc 2 j) in rw half (bit_at-pow_self j)

pub bit_at-pow_ne : (i j : ℕ) → i ≢ j → bit_at i (2 ^ j) ≡ 0
bit_at-pow_ne zero zero h = absurd (h refl)
bit_at-pow_ne zero (suc j) h = omega (arith, pow-suc 2 j)
bit_at-pow_ne (suc i) zero h = bit_at-zero i
bit_at-pow_ne (suc i) (suc j) h =
    let half : 2 ^ suc j / 2 ≡ 2 ^ j = omega (arith, pow-suc 2 j) in
    rw half (bit_at-pow_ne i j (λ e. h (ap suc e)))

pub bit_at-complement : (w i x : ℕ) → i < w → x < 2 ^ w → bit_at i (complement w x) ≡ 1 - bit_at i x
bit_at-complement zero i x hi hx = absurd (omega arith)
bit_at-complement (suc w) zero x hi hx = omega (arith, pow-suc 2 w)
bit_at-complement (suc w) (suc i) x hi hx =
    let half : complement (suc w) x / 2 ≡ complement w (x / 2) = omega (arith, pow-suc 2 w) in
    rw half (bit_at-complement w i (x / 2) (omega arith) (omega (arith, pow-suc 2 w)))

pub complement-lt : (w x : ℕ) → 0 < w → complement w x < 2 ^ w
complement-lt zero x h = absurd (omega arith)
complement-lt (suc w) x h = omega (arith, one_le_two_pow (suc w))

-- The number of zero bits above the highest set bit, on words of `w` bits.
unfoldable pub leading_zeros : ℕ → ℕ → ℕ
leading_zeros zero x = 0
leading_zeros (suc w) x = if leb (2 ^ w) x then 0 else suc (leading_zeros w x)

pub leading_zeros-zero : (w : ℕ) → leading_zeros w 0 ≡ w
unfolding leading_zeros
leading_zeros-zero zero = refl
leading_zeros-zero (suc w) = ground (arith, one_le_two_pow w, leading_zeros-zero w)

bit_at_top : (w x : ℕ) → 2 ^ w ≤ x → x < 2 ^ suc w → bit_at w x ≡ 1
bit_at_top zero x lo hi = omega arith
bit_at_top (suc w) x lo hi =
    bit_at_top w (x / 2) (omega (arith, pow-suc 2 w)) (omega (arith, pow-suc 2 (suc w)))

bit_at_above : (w i x : ℕ) → x < 2 ^ w → w ≤ i → bit_at i x ≡ 0
bit_at_above zero i x hx h = let e : x ≡ 0 = omega arith in rw e (bit_at-zero i)
bit_at_above (suc w) zero x hx h = absurd (omega arith)
bit_at_above (suc w) (suc i) x hx h =
    bit_at_above w i (x / 2) (omega (arith, pow-suc 2 w)) (omega arith)

-- Bit `w - 1 - leading_zeros` is the highest one that is set.
pub leading_zeros-highest :
    (w x : ℕ)
    → x < 2 ^ w
    → x ≢ 0
    → (leading_zeros w x < w)
      × (bit_at (w - 1 - leading_zeros w x) x ≡ 1)
      × ((i : ℕ) → w - 1 - leading_zeros w x < i → bit_at i x ≡ 0)
unfolding leading_zeros
leading_zeros-highest zero x hx ne = absurd (omega arith)
leading_zeros-highest (suc w) x hx ne = elim (dec_le (2 ^ w) x) [
  | yes h ↦ rw (le→leb _ _ h) (
    omega arith,
    rw (sub_none w) (bit_at_top w x h hx),
    λ i lt. bit_at_above (suc w) i x hx (omega arith),
  )
  | no h ↦
      let (a, b, c) = leading_zeros-highest w x (omega arith) ne in
      rw (lt→leb (2 ^ w) x (omega arith))
        (omega arith, rw (sub_some w _) b, λ i lt. c i (omega arith))
]
  where
    sub_none : (n : ℕ) → suc n - 1 - 0 ≡ n
    sub_none n = omega arith

    sub_some : (n k : ℕ) → suc n - 1 - suc k ≡ n - 1 - k
    sub_some n k = omega arith

pub pow_lt_pow : (i j : ℕ) → i < j → 2 ^ i < 2 ^ j
pow_lt_pow i zero h = absurd (omega arith)
pow_lt_pow zero (suc j) h = omega (arith, pow-suc 2 j, one_le_two_pow j)
pow_lt_pow (suc i) (suc j) h = omega (arith, pow-suc 2 j, pow-suc 2 i, pow_lt_pow i j (omega arith))
