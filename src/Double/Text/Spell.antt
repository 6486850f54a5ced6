-- ===== src/Double/Text/Spell.antt =====
-- common/strformat.c, TW_WriteDouble: digits as text, from the highest on, and the number that they spell.
use native.Mathlib.Nat.{
  pow-suc, one-le-pow, div-div-eq-div-mul, mod-lt, mul-le-mul_right, div-add-mod',
  add-mul-mod_self_right, mod-eq_of_lt,
}
use libtwilight.Prelude.{
  ℕ, zero, suc, ◌+◌, ◌-◌, ◌*◌, ◌/◌, ◌%◌, ◌^◌, ◌<◌, ◌≤◌, ◌≡◌, refl, ap, ap₂, sym, ◌∙◌, arith, List,
  [], ◌∷◌, ◌++◌, length, get_or, replicate,
}
use libtwilight.Integer.Digits.{read_from, digit_value}
use libtwilight.Double.Value.{value, AllDigits, pow_add}
use libtwilight.Double.Text.Round.{get_or_digit}

mod-mul : (m k x : ℕ) → 1 ≤ m → 1 ≤ k → x % (m * k) ≡ x / k % m * k + x % k
mod-mul m k x h l =
    let whole : x ≡ x / k % m * k + x % k + x / k / m * (m * k) =
      grind (arith, ap (λ (t : ℕ). t * k) (div-add-mod' (x / k) m), div-add-mod' x k) in
    let digit : suc (x / k % m) * k ≤ m * k = mul-le-mul_right k (mod-lt (x / k) {m = m} h) in
    let sum : suc (x / k % m) * k ≡ x / k % m * k + k = grind arith in
    let small : x / k % m * k + x % k < m * k = omega (arith, digit, sum, mod-lt x {m = k} l) in
    ap (λ (t : ℕ). t % (m * k)) whole
    ∙ add-mul-mod_self_right (x / k % m * k + x % k) (x / k / m) (m * k)
    ∙ mod-eq_of_lt small

-- `n` digits from below position `left` on.
unfoldable pub decimals : ℕ → ℕ → List ℕ → List ℕ
decimals zero left digits = []
decimals (suc n) zero digits = []
decimals (suc n) (suc i) digits = (b'0' + get_or digits i 0) ∷ decimals n i digits

pub length-decimals :
    (n left : ℕ) (digits : List ℕ) → n ≤ left → length (decimals n left digits) ≡ n
unfolding decimals
length-decimals zero left digits h = refl
length-decimals (suc n) zero digits h = absurd (omega arith)
length-decimals (suc n) (suc i) digits h = ap suc (length-decimals n i digits (omega arith))

-- The characters are `0` to `9`.
pub AllNumerals : List ℕ → Type 0
AllNumerals [] = Unit
AllNumerals (c ∷ cs) = (b'0' ≤ c) × (c ≤ b'9') × AllNumerals cs

pub decimals-AllNumerals :
    (n left : ℕ) (digits : List ℕ) → AllDigits digits → AllNumerals (decimals n left digits)
unfolding decimals AllNumerals
decimals-AllNumerals zero left digits h = tt
decimals-AllNumerals (suc n) zero digits h = tt
decimals-AllNumerals (suc n) (suc i) digits h =
    let digit = get_or_digit digits i h in
    (omega arith, omega (arith, digit), decimals-AllNumerals n i digits h)

-- Zeros before the digits.
pub zeros-AllNumerals :
    (n : ℕ) (cs : List ℕ) → AllNumerals cs → AllNumerals (replicate n b'0' ++ cs)
unfolding AllNumerals
zeros-AllNumerals zero cs h = h
zeros-AllNumerals (suc n) cs h = (omega arith, omega arith, zeros-AllNumerals n cs h)

pub read-zeros : (n : ℕ) (cs : List ℕ) → read_from 10 0 (replicate n b'0' ++ cs) ≡ read_from 10 0 cs
read-zeros zero cs = refl
read-zeros (suc n) cs = read-zeros n cs

digit_value-decimal : (d : ℕ) → d < 10 → digit_value (b'0' + d) ≡ d
digit_value-decimal d h = ground arith

pub read-decimals :
    (n left before : ℕ) (digits : List ℕ)
    → AllDigits digits
    → n ≤ left
    → read_from 10 before (decimals n left digits)
      ≡ before * 10 ^ n + value digits / 10 ^ (left - n) % 10 ^ n
unfolding decimals
read-decimals zero left before digits h k =
    omega (arith, mod-lt (value digits / 10 ^ (left - zero)) {m = 1} (omega arith))
read-decimals (suc n) zero before digits h k = absurd (omega arith)
read-decimals (suc n) (suc i) before digits h k =
    let v = value digits in
    let d = get_or digits i 0 in
    let digit : d ≡ v / 10 ^ i % 10 = get_or_digit digits i h in
    let x = v / 10 ^ (i - n) in
    let minus : suc i - suc n ≡ i - n = omega arith in
    let high : x / 10 ^ n ≡ v / 10 ^ i =
      let whole : i - n + n ≡ i = omega arith in
      div-div-eq-div-mul v (10 ^ (i - n)) (10 ^ n)
      ∙ ap (λ t. v / t) (sym (pow_add 10 (i - n) n) ∙ ap (λ t. 10 ^ t) whole) in
    let split : x % 10 ^ suc n ≡ d * 10 ^ n + x % 10 ^ n =
      let e : 10 ^ suc n ≡ 10 * 10 ^ n = rw (pow-suc 10 n) (grind arith) in
      ap (λ t. x % t) e
      ∙ mod-mul 10 (10 ^ n) x (omega arith) (one-le-pow n 10 (omega arith))
      ∙ ap (λ t. t * 10 ^ n + x % 10 ^ n) (ap (λ t. t % 10) high ∙ sym digit) in
    ap (λ t. read_from 10 (before * 10 + t) (decimals n i digits))
      (digit_value-decimal d (omega (arith, digit)))
    ∙ read-decimals n i (before * 10 + d) digits h (omega arith)
    ∙ rw (minus, split, pow-suc 10 n) (grind arith)

pub decimals-zeros :
    (n left first : ℕ) (digits : List ℕ)
    → ((i : ℕ) → i < first → get_or digits i 0 ≡ 0)
    → left ≤ first
    → n ≤ left
    → decimals n left digits ≡ replicate n b'0'
unfolding decimals
decimals-zeros zero left first digits h k l = refl
decimals-zeros (suc n) zero first digits h k l = absurd (omega arith)
decimals-zeros (suc n) (suc i) first digits h k l =
    ap₂ (λ d ds. (b'0' + d) ∷ ds) (h i (omega arith))
      (decimals-zeros n i first digits h (omega arith) (omega arith))
