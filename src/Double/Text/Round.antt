-- ===== src/Double/Text/Round.antt =====
-- common/strformat.c, TW_WriteDouble: the value of the digits after the rounding, and the digits left by the
-- search for the last digit of the whole part.
use native.Mathlib.Nat.{
  pow-suc, one-le-pow, div-lt_iff_lt-mul, mod-lt, pow-le-pow_right, mul-le-mul_left, div-add-mod,
  zero-div, mul-div_cancel, div-div-eq-div-mul,
}
use libtwilight.Prelude.{
  ℕ, zero, suc, ◌+◌, ◌-◌, ◌*◌, ◌/◌, ◌%◌, ◌^◌, ◌<◌, ◌≤◌, ◌≡◌, ◌⊎◌, inl, inr, refl, ap, sym, ◌∙◌,
  arith, List, [], ◌∷◌, length, drop, take, get_or, Bool-cases, ltb, ltb→lt, ◌==◌, if◌then◌else◌,
  length-drop,
}
use libtwilight.Double.{from_index}
use libtwilight.Double.Value.{
  value, AllDigits, pow_add, value-split, value-from_index, lt_of_mul, from_index-AllDigits,
}
use libtwilight.Double.Text.{round_loop, rounded, trimmed}

value-round_loop :
    (a : ℕ) (xs : List ℕ) → value xs + a < 10 ^ length xs → value (round_loop a xs) ≡ value xs + a
unfolding round_loop
value-round_loop a [] h = omega arith
value-round_loop a (x ∷ xs) h =
    let d = x + a in
    elim (Bool-cases (d / 10 == 0)) [
      | inl e ↦ let none : d / 10 ≡ 0 = ground arith in rw e (omega arith)
      | inr e ↦
          rw e (omega (arith, value-round_loop (d / 10) xs (omega (arith, pow-suc 10 (length xs)))))
    ]

round_loop-AllDigits : (a : ℕ) (xs : List ℕ) → AllDigits xs → AllDigits (round_loop a xs)
unfolding round_loop
round_loop-AllDigits a [] h = tt
round_loop-AllDigits a (x ∷ xs) h = elim (Bool-cases ((x + a) / 10 == 0)) [
  | inl e ↦ rw e (omega arith, h.1)
  | inr e ↦ rw e (omega arith, round_loop-AllDigits ((x + a) / 10) xs h.1)
]

-- One digit of a number.
pub get_or_digit : (xs : List ℕ) (i : ℕ) → AllDigits xs → get_or xs i 0 ≡ value xs / 10 ^ i % 10
get_or_digit [] i h = rw (zero-div (10 ^ i)) refl
get_or_digit (x ∷ xs) zero h = omega arith
get_or_digit (x ∷ xs) (suc i) h =
    let below : (x + 10 * value xs) / 10 ≡ value xs = omega arith in
    let split : (x + 10 * value xs) / 10 ^ suc i ≡ value xs / 10 ^ i =
      let e : 10 ^ suc i ≡ 10 * 10 ^ i = rw (pow-suc 10 i) (grind arith) in
      ap (λ t. (x + 10 * value xs) / t) e
      ∙ sym (div-div-eq-div-mul (x + 10 * value xs) 10 (10 ^ i))
      ∙ ap (λ t. t / 10 ^ i) below in
    rw split (get_or_digit xs i h.1)

-- One if the digit below the last that is printed is above 5.
pub round_up : ℕ → ℕ → ℕ
round_up precision number = if ltb 5 (number / 10 ^ (1074 - precision - 1) % 10) then 1 else 0

pub round_up-le : (precision number : ℕ) → round_up precision number ≤ 1
unfolding round_up
round_up-le precision number =
    elim (Bool-cases (ltb 5 (number / 10 ^ (1074 - precision - 1) % 10))) [
      | inl e ↦ rw e (omega arith)
      | inr e ↦ rw e (omega arith)
    ]

module _ (precision : ℕ) (digits : List ℕ) (h : AllDigits digits) (len : length digits ≡ 1384)
    (k : precision ≤ 1073) (room : value digits < 10 ^ 1383) where
  round_room :
      value (drop (1074 - precision) digits) + 1 < 10 ^ length (drop (1074 - precision) digits)
  round_room =
      let n = 1074 - precision in
      let rest : length (drop n digits) ≡ 1384 - n = length-drop n digits ∙ ap (λ t. t - n) len in
      let whole : n + (1384 - n) ≡ 1384 = omega arith in
      let weight : 10 ^ n ≤ 10 ^ 1383 =
        pow-le-pow_right {n = 10} (omega arith) {i = n} {j = 1383} (omega arith) in
      let sum : 10 ^ n * (value (drop n digits) + 1) ≡ 10 ^ n * value (drop n digits) + 10 ^ n =
        grind arith in
      rw rest (
        lt_of_mul (10 ^ n) (value (drop n digits) + 1) (10 ^ (1384 - n)) (
          rw (← (pow_add 10 n (1384 - n)), whole)
            (omega (arith, sum, weight, value-split n digits, pow-suc 10 1383))))

  pub value-rounded :
      value (rounded precision digits)
      ≡ value digits + 10 ^ (1074 - precision) * round_up precision (value digits)
  unfolding rounded round_up
  value-rounded =
      let n = 1074 - precision in
      let next : suc (n - 1) ≡ n = omega arith in
      let digit = get_or_digit digits (n - 1) h in
      elim (Bool-cases (ltb 5 (value digits / 10 ^ (n - 1) % 10))) [
        | inl e ↦
            let sum : 10 ^ n * (value (drop n digits) + 1)
                ≡ 10 ^ n * value (drop n digits) + 10 ^ n =
              grind arith in
            rw (digit, e, next)
              (value-from_index n (round_loop 1) digits (omega arith)
                ∙ ap (λ t. value (take n digits) + 10 ^ n * t)
                    (value-round_loop 1 (drop n digits) round_room)
                ∙ omega (arith, sum, value-split n digits))
        | inr e ↦ rw (digit, e) (omega arith)
      ]

  pub rounded-AllDigits : AllDigits (rounded precision digits)
  unfolding rounded
  rounded-AllDigits =
      let n = 1074 - precision in
      elim (Bool-cases (ltb 5 (get_or digits (n - 1) 0))) [
        | inl e ↦
            rw e
              (from_index-AllDigits (suc (n - 1)) (round_loop 1) digits h (round_loop-AllDigits 1))
        | inr e ↦ rw e h
      ]

-- No digits below a power of ten that divides the number, also after the rounding.
pub get_or-multiple :
    (first q i : ℕ) (digits : List ℕ)
    → AllDigits digits
    → value digits ≡ 10 ^ first * q
    → i < first
    → get_or digits i 0 ≡ 0
get_or-multiple first q i digits h e l =
    let parts : 10 ^ first * q ≡ 10 ^ (first - suc i) * q * 10 * 10 ^ i =
      let whole : first ≡ first - suc i + suc i = omega arith in
      ap (λ t. 10 ^ t * q) whole
      ∙ rw (pow_add 10 (first - suc i) (suc i), pow-suc 10 i) (grind arith) in
    let above : value digits / 10 ^ i ≡ 10 ^ (first - suc i) * q * 10 =
      ap (λ t. t / 10 ^ i) (e ∙ parts)
      ∙ mul-div_cancel (10 ^ (first - suc i) * q * 10) (one-le-pow i 10 (omega arith)) in
    get_or_digit digits i h ∙ rw above (omega arith)

get_or-from_index :
    (p i : ℕ) (f : List ℕ → List ℕ) (xs : List ℕ)
    → i < p
    → get_or (from_index p f xs) i 0 ≡ get_or xs i 0
unfolding from_index
get_or-from_index zero i f xs h = absurd (omega arith)
get_or-from_index (suc p) i f [] h = refl
get_or-from_index (suc p) zero f (x ∷ xs) h = refl
get_or-from_index (suc p) (suc i) f (x ∷ xs) h = get_or-from_index p i f xs (omega arith)

pub get_or-rounded :
    (precision first q i : ℕ) (digits : List ℕ)
    → AllDigits digits
    → value digits ≡ 10 ^ first * q
    → i < first
    → get_or (rounded precision digits) i 0 ≡ 0
unfolding rounded
get_or-rounded precision first q i digits h e l =
    let r = 1074 - precision - 1 in
    let none = get_or-multiple first q i digits h e l in
    elim (Bool-cases (ltb 5 (get_or digits r 0))) [
      | inl b ↦
          let high : i < suc r = elim (Bool-cases (ltb r first)) [
            | inl c ↦
                let zero_digit = get_or-multiple first q r digits h e (ltb→lt r first c) in
                absurd (omega (arith, ltb→lt 5 (get_or digits r 0) b))
            | inr c ↦ ground arith
          ] in
          rw b (get_or-from_index (suc r) i (round_loop 1) digits high ∙ none)
      | inr b ↦ rw b none
    ]

-- One round of the search for the highest digit.
trimmed-step :
    (digits : List ℕ) (end : ℕ)
    → ((get_or digits (suc end) 0 ≡ 0)
        × (1074 ≤ end)
        × (trimmed digits (suc end) ≡ trimmed digits end))
      ⊎ ((end < 1074 ⊎ 0 < get_or digits (suc end) 0) × (trimmed digits (suc end) ≡ suc end))
unfolding trimmed
trimmed-step digits end = elim (Bool-cases (get_or digits (suc end) 0 == 0)) [
  | inl e ↦ elim (Bool-cases (ltb 1074 (suc end))) [
    | inl f ↦ inl (ground arith, ground arith, rw (e, f) refl)
    | inr f ↦ inr (inl (ground arith), rw (e, f) refl)
  ]
  | inr e ↦ inr (inr (ground arith), rw e refl)
]

below_digit : (x end : ℕ) → x < 10 ^ suc end → x / 10 ^ end % 10 ≡ 0 → x < 10 ^ end
below_digit x end h e =
    let one = one-le-pow end 10 (omega arith) in
    let few : x / 10 ^ end < 10 =
      (div-lt_iff_lt-mul {k = 10 ^ end} {x = x} {y = 10} one).1 (grind (arith, pow-suc 10 end)) in
    let none : x / 10 ^ end ≡ 0 = omega arith in
    omega
      (arith, div-add-mod x (10 ^ end), mod-lt x {m = 10 ^ end} one, ap (λ t. 10 ^ end * t) none)

above_digit : (x end : ℕ) → 0 < x / 10 ^ end % 10 → 10 ^ end ≤ x
above_digit x end h =
    let some : 1 ≤ x / 10 ^ end = omega arith in
    omega (arith, div-add-mod x (10 ^ end), mul-le-mul_left (10 ^ end) some)

-- The highest digit, or the units.
pub trimmed-lem :
    (digits : List ℕ) (end : ℕ)
    → AllDigits digits
    → 1074 ≤ end
    → value digits < 10 ^ suc end
    → let top = trimmed digits end in
      (1074 ≤ top) × (value digits < 10 ^ suc top) × ((1074 < top) → 10 ^ top ≤ value digits)
trimmed-lem digits zero h k below = absurd (omega arith)
trimmed-lem digits (suc end) h k below =
    let digit = get_or_digit digits (suc end) h in
    elim (trimmed-step digits end) [
      | inl (e, f, same) ↦
          rw same (
            trimmed-lem digits end h f (below_digit (value digits) (suc end) below (sym digit ∙ e)))
      | inr (why, same) ↦ rw same (
        k,
        below,
        λ l. elim why [
          | inl low ↦ absurd (omega arith)
          | inr some ↦ above_digit (value digits) (suc end) (omega (arith, digit))
        ],
      )
    ]
