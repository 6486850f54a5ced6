-- ===== src/Prelude/Bits/Masks.antt =====
-- Rounding down, masks and joined words, by `|` and `&`.
use Prim.Native.Nat.{
  ℕ, zero, suc, ◌+◌, ◌-◌, ◌*◌, ◌/◌, ◌%◌, ◌^◌, ◌≤◌, ◌<◌, bit_and, bit_or, bit_and-bitwise,
}
use mathlib.Core.Path.{◌≡◌, refl, ap, ◌∙◌}
use native.Mathlib.Omega.{arith}
use native.Mathlib.Nat.{
  pow-suc, div-div-eq-div-mul, div-add-mod', mod-lt, mod-eq_of_lt, add-mul-mod_self_right,
}
use libtwilight.Prelude.Bits.Words.{and_lowest, or_lowest, one_le_two_pow}

bit_and_zero_below : (w x : ℕ) → x < 2 ^ w → bit_and x 0 ≡ 0
bit_and_zero_below zero x h =
    let none : x ≡ 0 = omega arith in rw none (omega (arith, bit_and-bitwise 0 0))
bit_and_zero_below (suc w) x h =
    omega (arith, and_lowest x 0, bit_and_zero_below w (x / 2) (omega (arith, pow-suc 2 w)))

lt_two_pow : (x : ℕ) → x < 2 ^ x
lt_two_pow zero = omega arith
lt_two_pow (suc x) = omega (arith, pow-suc 2 x, lt_two_pow x)

pub bit_and_zero : (x : ℕ) → bit_and x 0 ≡ 0
bit_and_zero x = bit_and_zero_below x x (lt_two_pow x)

pub halve_mod : (m x : ℕ) → 1 ≤ m → x % (m * 2) ≡ x / 2 % m * 2 + x % 2
halve_mod m x h =
    let whole : x ≡ x / 2 % m * 2 + x % 2 + x / 2 / m * (m * 2) =
      omega (arith, ap (λ (t : ℕ). t * 2) (div-add-mod' (x / 2) m)) in
    let small : x / 2 % m * 2 + x % 2 < m * 2 = omega (arith, mod-lt (x / 2) {m = m} h) in
    ap (λ (t : ℕ). t % (m * 2)) whole
    ∙ add-mul-mod_self_right (x / 2 % m * 2 + x % 2) (x / 2 / m) (m * 2)
    ∙ mod-eq_of_lt small

-- `x & (2^w - 1)` is the remainder by `2 ^ w`.
pub bit_and_mask : (w x : ℕ) → bit_and x (2 ^ w - 1) ≡ x % 2 ^ w
bit_and_mask zero x = omega (arith, bit_and_zero x)
bit_and_mask (suc w) x =
    let half : (2 ^ suc w - 1) / 2 ≡ 2 ^ w - 1 = omega (arith, pow-suc 2 w) in
    let odd : (2 ^ suc w - 1) % 2 ≡ 1 = omega (arith, pow-suc 2 w, one_le_two_pow w) in
    let split : x % 2 ^ suc w ≡ x / 2 % 2 ^ w * 2 + x % 2 =
      rw (pow-suc 2 w) (halve_mod (2 ^ w) x (one_le_two_pow w)) in
    omega (
      arith,
      and_lowest x (2 ^ suc w - 1),
      ap (λ (t : ℕ). bit_and (x / 2) t) half,
      odd,
      split,
      bit_and_mask w (x / 2),
    )

halve_div : (k x : ℕ) → x / 2 / 2 ^ k ≡ x / 2 ^ suc k
halve_div k x =
    let e : 2 * 2 ^ k ≡ 2 ^ suc k = omega (arith, pow-suc 2 k) in
    div-div-eq-div-mul x 2 (2 ^ k) ∙ ap (λ (t : ℕ). x / t) e

-- Clearing the `k` low bits, for a mask that ends in `k` zeros.
pub bit_and_high : (k m x : ℕ) → bit_and x (m * 2 ^ k) ≡ bit_and (x / 2 ^ k) m * 2 ^ k
bit_and_high zero m x =
    let same : m * 2 ^ 0 ≡ m = omega arith in
    let here : x / 2 ^ 0 ≡ x = omega arith in rw (same, here) (omega arith)
bit_and_high (suc k) m x =
    let half : m * 2 ^ suc k / 2 ≡ m * 2 ^ k = rw (pow-suc 2 k) (omega arith) in
    let even : m * 2 ^ suc k % 2 ≡ 0 = rw (pow-suc 2 k) (omega arith) in
    let quotient : x / 2 / 2 ^ k ≡ x / 2 ^ suc k = halve_div k x in
    let double : bit_and (x / 2 ^ suc k) m * 2 ^ suc k ≡ bit_and (x / 2 ^ suc k) m * 2 ^ k * 2 =
      rw (pow-suc 2 k) (omega arith) in
    omega (
      arith,
      and_lowest x (m * 2 ^ suc k),
      ap (λ (t : ℕ). bit_and (x / 2) t) half,
      even,
      bit_and_high k m (x / 2),
      ap (λ (t : ℕ). bit_and t m * 2 ^ k) quotient,
      double,
    )

-- Rounding down to a multiple of `2 ^ k`, as `x & ~(2^k - 1)` does on words of `k + w` bits.
pub bit_and_align :
    (k w x : ℕ) → x / 2 ^ k < 2 ^ w → bit_and x ((2 ^ w - 1) * 2 ^ k) ≡ x / 2 ^ k * 2 ^ k
bit_and_align k w x h =
    bit_and_high k (2 ^ w - 1) x
    ∙ ap (λ (t : ℕ). t * 2 ^ k) (bit_and_mask w (x / 2 ^ k) ∙ mod-eq_of_lt h)

bit_or_zero_low : (x : ℕ) → (w : ℕ) → x < 2 ^ w → bit_or x 0 ≡ x
bit_or_zero_low x zero h = let e : x ≡ 0 = omega arith in rw e refl
bit_or_zero_low x (suc w) h =
    omega
      (arith, pow-suc 2 w, or_lowest x 0, bit_or_zero_low (x / 2) w (omega (arith, pow-suc 2 w)))

-- `|` of a word and another one below it.
pub bit_or_concat : (w x y : ℕ) → y < 2 ^ w → bit_or (x * 2 ^ w) y ≡ x * 2 ^ w + y
bit_or_concat zero x y h =
    let e : y ≡ 0 = omega arith in
    let single : x * 2 ^ 0 ≡ x = omega arith in
    rw (e, single) (omega (arith, bit_or_zero_low x x (lt_two_pow x)))
bit_or_concat (suc w) x y h =
    let twice : x * 2 ^ suc w ≡ x * 2 ^ w * 2 = rw (pow-suc 2 w) (grind arith) in
    let half : x * 2 ^ suc w / 2 ≡ x * 2 ^ w = omega (arith, twice) in
    omega (
      arith,
      pow-suc 2 w,
      twice,
      half,
      or_lowest (x * 2 ^ suc w) y,
      ap (λ (t : ℕ). bit_or t (y / 2)) half,
      bit_or_concat w x (y / 2) (omega (arith, pow-suc 2 w)),
    )
