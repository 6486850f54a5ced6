-- ===== src/Double/Multiply.antt =====
-- common/strformat.c, the loops of SHIFT_DIGITS_LEFT, ADD_MANTISSA_MULTIPLE and SHIFT_DIGITS_RIGHT on the lists
-- from an index on: what they add, as long as the digits have room for the result.
use libtwilight.Prelude.{
  ℕ, zero, suc, ◌+◌, ◌*◌, ◌/◌, ◌%◌, ◌^◌, ◌<◌, ◌≤◌, ◌≡◌, ◌⊎◌, inl, inr, refl, ap, sym, ◌∙◌, arith,
  Bool, true, List, [], ◌∷◌, length, take, Bool-cases, ◌==◌,
}
use mathlib.Core.Path.{subst}
use native.Mathlib.Nat.{pow-suc}
use libtwilight.Double.{carry_loop, multiply_loop, kept}
use libtwilight.Double.Value.{value, AllDigits}

-- One round of the carry loop.
pub carry_loop-step :
    (keep : Bool) (m a x : ℕ) (xs : List ℕ)
    → let d = kept keep x + m % 10 + a in
      let r = carry_loop keep (m / 10) (d / 10) xs in
      ((m ≡ 0) × (a ≡ 0) × (carry_loop keep m a (x ∷ xs) ≡ (x ∷ xs, 0)))
      ⊎ (carry_loop keep m a (x ∷ xs) ≡ (d % 10 ∷ r.0, suc r.1))
unfolding carry_loop
carry_loop-step keep m a x xs = elim (Bool-cases (m == 0)) [
  | inl e ↦ elim (Bool-cases (a == 0)) [
    | inl f ↦ inl (ground arith, ground arith, rw (e, f) refl)
    | inr f ↦ inr (rw (e, f) refl)
  ]
  | inr e ↦ inr (rw e refl)
]

pub value-carry_loop :
    (m a : ℕ) (xs : List ℕ)
    → value xs + m + a < 10 ^ length xs
    → value (carry_loop true m a xs).0 ≡ value xs + m + a
unfolding carry_loop
value-carry_loop m a [] h = omega arith
value-carry_loop m a (x ∷ xs) h =
    let d = x + m % 10 + a in
    elim (carry_loop-step true m a x xs) [
      | inl (none, no_carry, e) ↦ ap (λ r. value r.0) e ∙ omega arith
      | inr e ↦
          ap (λ r. value r.0) e
          ∙ omega
              (arith, value-carry_loop (m / 10) (d / 10) xs (omega (arith, pow-suc 10 (length xs))))
    ]

pub value-multiply_loop :
    (n amount m a : ℕ) (src dst : List ℕ)
    → n ≤ length src
    → n ≤ length dst
    → value dst + value (take n src) * 2 ^ amount + m + a < 10 ^ length dst
    → value (multiply_loop true true n amount m a src dst).0
      ≡ value dst + value (take n src) * 2 ^ amount + m + a
unfolding multiply_loop
value-multiply_loop zero amount m a src dst l k h =
    value-carry_loop m a dst (omega arith) ∙ omega arith
value-multiply_loop (suc n) amount m a [] dst l k h = absurd (omega arith)
value-multiply_loop (suc n) amount m a (d ∷ src) [] l k h = absurd (omega arith)
value-multiply_loop (suc n) amount m a (d ∷ src) (x ∷ dst) l k h =
    let p = 2 ^ amount in
    let d_m = d * p + m in
    let d_a = x + d_m % 10 + a in
    let v = value (take n src) in
    let distr : (d + 10 * v) * p ≡ d * p + 10 * (v * p) = grind arith in
    let ih =
      value-multiply_loop n amount (d_m / 10) (d_a / 10) src dst (omega arith) (omega arith)
        (omega (arith, pow-suc 10 (length dst), distr)) in
    omega (arith, ih, distr)

-- The digit arrays keep their length, and their entries stay digits.
pub length-carry_loop :
    (keep : Bool) (m a : ℕ) (xs : List ℕ) → length (carry_loop keep m a xs).0 ≡ length xs
unfolding carry_loop
length-carry_loop keep m a [] = refl
length-carry_loop keep m a (x ∷ xs) = elim (carry_loop-step keep m a x xs) [
  | inl (none, no_carry, e) ↦ ap (λ r. length r.0) e
  | inr e ↦
      ap (λ r. length r.0) e
      ∙ ap suc (length-carry_loop keep (m / 10) ((kept keep x + m % 10 + a) / 10) xs)
]

pub carry_loop-AllDigits :
    (keep : Bool) (m a : ℕ) (xs : List ℕ) → AllDigits xs → AllDigits (carry_loop keep m a xs).0
unfolding carry_loop
carry_loop-AllDigits keep m a [] h = tt
carry_loop-AllDigits keep m a (x ∷ xs) h =
    let d = kept keep x + m % 10 + a in
    elim (carry_loop-step keep m a x xs) [
      | inl (none, no_carry, e) ↦ subst (λ r. AllDigits r.0) (sym e) h
      | inr e ↦
          subst (λ r. AllDigits r.0) (sym e)
            (omega arith, carry_loop-AllDigits keep (m / 10) (d / 10) xs h.1)
    ]

pub length-multiply_loop :
    (keep keep_carry : Bool) (n amount m a : ℕ) (src dst : List ℕ)
    → length (multiply_loop keep keep_carry n amount m a src dst).0 ≡ length dst
unfolding multiply_loop
length-multiply_loop keep keep_carry zero amount m a src dst = length-carry_loop keep_carry m a dst
length-multiply_loop keep keep_carry (suc n) amount m a [] dst = refl
length-multiply_loop keep keep_carry (suc n) amount m a (d ∷ src) [] = refl
length-multiply_loop keep keep_carry (suc n) amount m a (d ∷ src) (x ∷ dst) =
    let d_m = d * 2 ^ amount + m in
    let d_a = kept keep x + d_m % 10 + a in
    ap suc (length-multiply_loop keep keep_carry n amount (d_m / 10) (d_a / 10) src dst)

pub multiply_loop-AllDigits :
    (keep keep_carry : Bool) (n amount m a : ℕ) (src dst : List ℕ)
    → AllDigits dst
    → AllDigits (multiply_loop keep keep_carry n amount m a src dst).0
unfolding multiply_loop
multiply_loop-AllDigits keep keep_carry zero amount m a src dst h =
    carry_loop-AllDigits keep_carry m a dst h
multiply_loop-AllDigits keep keep_carry (suc n) amount m a [] dst h = h
multiply_loop-AllDigits keep keep_carry (suc n) amount m a (d ∷ src) [] h = tt
multiply_loop-AllDigits keep keep_carry (suc n) amount m a (d ∷ src) (x ∷ dst) h =
    let d_m = d * 2 ^ amount + m in
    let d_a = kept keep x + d_m % 10 + a in
    (
      omega arith,
      multiply_loop-AllDigits keep keep_carry n amount (d_m / 10) (d_a / 10) src dst h.1,
    )
