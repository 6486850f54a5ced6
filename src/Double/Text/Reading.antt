-- ===== src/Double/Text/Reading.antt =====
-- common/strformat.c, TW_WriteDouble: reading back the text of a number.
use native.Mathlib.Nat.{one-le-pow, div-div-eq-div-mul, div-lt_iff_lt-mul, mod-eq_of_lt}
use libtwilight.Prelude.{
  ℕ, ◌+◌, ◌-◌, ◌*◌, ◌/◌, ◌%◌, ◌^◌, ◌<◌, ◌≤◌, ◌≡◌, ◌⊎◌, inl, inr, refl, ap, sym, ◌∙◌, arith, List,
  ◌∷◌, ◌++◌, length, length-append, length-replicate, replicate, Bool-cases, ltb, ltb→lt,
}
use libtwilight.Integer.Digits.{read_from}
use libtwilight.Double.Value.{value, AllDigits, pow_add}
use libtwilight.Double.Text.Spell.{
  decimals, length-decimals, read-decimals, AllNumerals, decimals-AllNumerals, zeros-AllNumerals,
  read-zeros,
}

-- The text of `number / 10 ^ precision` with `precision` digits behind the point, and at least `least` before it.
pub record IsDecimal (least precision number : ℕ) (text : List ℕ) : Type 0 where
  pub whole : List ℕ
  pub fraction : List ℕ
  pub parts : text ≡ whole ++ b'.' ∷ fraction
  pub whole_numerals : AllNumerals whole
  pub whole_value : read_from 10 0 whole ≡ number / 10 ^ precision
  pub whole_length :
      (length whole ≡ least)
      ⊎ ((least ≤ length whole) × (10 ^ (length whole - 1) ≤ number / 10 ^ precision))
  pub fraction_numerals : AllNumerals fraction
  pub fraction_value : read_from 10 0 fraction ≡ number % 10 ^ precision
  pub fraction_length : length fraction ≡ precision

-- The units of a number in steps of 10^-1074, by its last digit printed.
units :
    (precision number : ℕ)
    → precision ≤ 1074
    → number / 10 ^ (1074 - precision) / 10 ^ precision ≡ number / 10 ^ 1074
units precision number h =
    let whole : 1074 - precision + precision ≡ 1074 = omega arith in
    div-div-eq-div-mul number (10 ^ (1074 - precision)) (10 ^ precision)
    ∙ ap (λ t. number / t) (sym (pow_add 10 (1074 - precision) precision) ∙ ap (λ t. 10 ^ t) whole)

le_div : (a c x : ℕ) → 1 ≤ c → a * c ≤ x → a ≤ x / c
le_div a c x h l = elim (Bool-cases (ltb (x / c) a)) [
  | inl b ↦
      absurd (omega (arith, (div-lt_iff_lt-mul {k = c} {x = x} {y = a} h).0 (ltb→lt (x / c) a b)))
  | inr b ↦ ground arith
]

module _ (least precision k : ℕ) (digits : List ℕ) (h : AllDigits digits) (p : precision ≤ 1074)
    (below : value digits < 10 ^ (1074 + k)) where
  whole_small : value digits / 10 ^ 1074 < 10 ^ k
  whole_small =
      (div-lt_iff_lt-mul {k = 10 ^ 1074} {x = value digits} {y = 10 ^ k}
          (one-le-pow 1074 10 (omega arith))).1
        (omega (arith, below, pow_add 10 1074 k))

  whole_reads :
      read_from 10 0 (replicate (least - k) b'0' ++ decimals k (1074 + k) digits)
      ≡ value digits / 10 ^ 1074
  whole_reads =
      let minus : 1074 + k - k ≡ 1074 = omega arith in
      read-zeros (least - k) (decimals k (1074 + k) digits)
      ∙ read-decimals k (1074 + k) 0 digits h (omega arith)
      ∙ rw minus (omega (arith, mod-eq_of_lt whole_small))

  fraction_reads :
      read_from 10 0 (decimals precision 1074 digits)
      ≡ value digits / 10 ^ (1074 - precision) % 10 ^ precision
  fraction_reads = read-decimals precision 1074 0 digits h p ∙ omega arith

  whole_digits : length (replicate (least - k) b'0' ++ decimals k (1074 + k) digits) ≡ least - k + k
  whole_digits = omega (
    arith,
    length-append (replicate (least - k) b'0') (decimals k (1074 + k) digits),
    length-replicate {A = ℕ} (least - k) b'0',
    length-decimals k (1074 + k) digits (omega arith),
  )

  least_digits :
      1 ≤ least
      → 1 ≤ k
      → (1074 < 1073 + k → 10 ^ (1073 + k) ≤ value digits)
      → let n = length (replicate (least - k) b'0' ++ decimals k (1074 + k) digits) in
        (n ≡ least)
        ⊎ ((least ≤ n) × (10 ^ (n - 1) ≤ value digits / 10 ^ (1074 - precision) / 10 ^ precision))
  least_digits some one top = elim (Bool-cases (ltb least k)) [
    | inl b ↦
        let all : least - k + k ≡ k = omega (arith, ltb→lt least k b) in
        let weight : 10 ^ (1073 + k) ≡ 10 ^ (k - 1) * 10 ^ 1074 =
          let whole : 1073 + k ≡ k - 1 + 1074 = omega arith in
          ap (λ t. 10 ^ t) whole ∙ pow_add 10 (k - 1) 1074 in
        inr (
          omega (arith, whole_digits, ltb→lt least k b),
          rw (whole_digits, all, units precision (value digits) p)
              (le_div (10 ^ (k - 1)) (10 ^ 1074) (value digits) (one-le-pow 1074 10 (omega arith))
                (omega (arith, weight, top (omega (arith, ltb→lt least k b))))),
        )
    | inr b ↦ inl (whole_digits ∙ ground arith)
  ]

  pub text-IsDecimal :
      1 ≤ least
      → 1 ≤ k
      → (1074 < 1073 + k → 10 ^ (1073 + k) ≤ value digits)
      → IsDecimal least precision (value digits / 10 ^ (1074 - precision)) (
          (replicate (least - k) b'0' ++ decimals k (1074 + k) digits)
          ++ b'.' ∷ decimals precision 1074 digits)
  text-IsDecimal some one top = record {
    whole = replicate (least - k) b'0' ++ decimals k (1074 + k) digits;
    fraction = decimals precision 1074 digits;
    parts = refl;
    whole_numerals =
        zeros-AllNumerals (least - k) (decimals k (1074 + k) digits)
          (decimals-AllNumerals k (1074 + k) digits h);
    whole_value = whole_reads ∙ sym (units precision (value digits) p);
    whole_length = least_digits some one top;
    fraction_numerals = decimals-AllNumerals precision 1074 digits h;
    fraction_value = fraction_reads;
    fraction_length = length-decimals precision 1074 digits p;
  }
