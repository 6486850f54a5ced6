-- ===== src/Double/Value.antt =====
-- The number that a list of decimal digits stands for, from the lowest digit on, and powers.
use libtwilight.Prelude.{
  ℕ, zero, suc, ◌+◌, ◌*◌, ◌/◌, ◌^◌, ◌<◌, ◌≤◌, ◌≡◌, inl, inr, refl, ap, sym, ◌∙◌, arith, List, [],
  ◌∷◌, length, take, drop, Bool-cases, ltb, ltb→lt,
}
use native.Mathlib.Nat.{
  pow-suc, one-le-pow, mul-le-mul_left, mul-suc, one-mul, pow-zero, eq-zero-or-pos, mul-div_cancel,
}
use libtwilight.Double.{from_index}

abbrev pub value : List ℕ → ℕ
value [] = 0
value (d ∷ ds) = d + 10 * value ds

abbrev pub AllDigits : List ℕ → Type 0
AllDigits [] = Unit
AllDigits (d ∷ ds) = (d < 10) × AllDigits ds

pub pow_add : (b m n : ℕ) → b ^ (m + n) ≡ b ^ m * b ^ n
pow_add b zero n = let e : zero + n ≡ n = omega arith in rw (e, pow-zero b, one-mul (b ^ n)) refl
pow_add b (suc m) n =
    let e : suc m + n ≡ suc (m + n) = omega arith in
    rw (e, pow-suc b (m + n), pow-suc b m, pow_add b m n) (grind arith)

pub pow_ten : (n : ℕ) → 10 ^ n ≡ 2 ^ n * 5 ^ n
pow_ten zero = refl
pow_ten (suc n) = rw (pow-suc 10 n, pow-suc 2 n, pow-suc 5 n, pow_ten n) (grind arith)

pub value-split : (n : ℕ) (xs : List ℕ) → value (take n xs) + 10 ^ n * value (drop n xs) ≡ value xs
value-split zero xs = omega arith
value-split (suc n) [] = omega arith
value-split (suc n) (x ∷ xs) = rw (pow-suc 10 n) (grind (arith, value-split n xs))

pub value-lt : (xs : List ℕ) → AllDigits xs → value xs < 10 ^ length xs
value-lt [] h = omega arith
value-lt (x ∷ xs) h = omega (arith, pow-suc 10 (length xs), value-lt xs h.1)

pub take-AllDigits : (n : ℕ) (xs : List ℕ) → AllDigits xs → AllDigits (take n xs)
take-AllDigits zero xs h = tt
take-AllDigits (suc n) [] h = tt
take-AllDigits (suc n) (x ∷ xs) h = (h.0, take-AllDigits n xs h.1)

pub drop-AllDigits : (n : ℕ) (xs : List ℕ) → AllDigits xs → AllDigits (drop n xs)
drop-AllDigits zero xs h = h
drop-AllDigits (suc n) [] h = tt
drop-AllDigits (suc n) (x ∷ xs) h = drop-AllDigits n xs h.1

pub take_lt_pow : (n : ℕ) (xs : List ℕ) → AllDigits xs → value (take n xs) < 10 ^ n
take_lt_pow zero xs h = omega arith
take_lt_pow (suc n) [] h = one-le-pow (suc n) 10 (omega arith)
take_lt_pow (suc n) (x ∷ xs) h = omega (arith, pow-suc 10 n, take_lt_pow n xs h.1)

-- Quotient and remainder are unique.
pub unique_split : (m t v w : ℕ) → t < m → t + m * v ≡ m * w → (v ≡ w) × (t ≡ 0)
unique_split m t v w small e =
    let same : v ≡ w = elim (Bool-cases (ltb v w)) [
      | inl l ↦
          let above = mul-le-mul_left m (ltb→lt v w l) in absurd (omega (arith, mul-suc m v, e))
      | inr l ↦ elim (Bool-cases (ltb w v)) [
        | inl g ↦
            let above = mul-le-mul_left m (ltb→lt w v g) in absurd (omega (arith, mul-suc m w, e))
        | inr g ↦ ground arith
      ]
    ] in
    (same, omega (arith, e, ap (λ x. m * x) same))

-- The digits from `n` on of a number below `10 ^ n` add nothing.
pub value-take : (n : ℕ) (xs : List ℕ) → value xs < 10 ^ n → value (take n xs) ≡ value xs
value-take n xs h = elim (eq-zero-or-pos (value (drop n xs))) [
  | inl none ↦ omega (arith, value-split n xs, ap (λ t. 10 ^ n * t) none)
  | inr one ↦
      let above : 10 ^ n * 1 ≤ 10 ^ n * value (drop n xs) = mul-le-mul_left (10 ^ n) one in
      absurd (omega (arith, value-split n xs))
]

-- A multiple of `10 ^ p` has its factor from digit `p` on.
pub value-drop :
    (p w : ℕ) (xs : List ℕ) → AllDigits xs → value xs ≡ 10 ^ p * w → value (drop p xs) ≡ w
value-drop p w xs h e =
    (unique_split (10 ^ p) (value (take p xs)) (value (drop p xs)) w (take_lt_pow p xs h)
      (value-split p xs ∙ e)).0

pub value-from_index :
    (p : ℕ) (f : List ℕ → List ℕ) (xs : List ℕ)
    → p ≤ length xs
    → value (from_index p f xs) ≡ value (take p xs) + 10 ^ p * value (f (drop p xs))
unfolding from_index
value-from_index zero f xs h = omega arith
value-from_index (suc p) f [] h = absurd (omega arith)
value-from_index (suc p) f (x ∷ xs) h =
    rw (pow-suc 10 p) (grind (arith, value-from_index p f xs (omega arith)))

pub length-from_index :
    (p : ℕ) (f : List ℕ → List ℕ) (xs : List ℕ)
    → ((ys : List ℕ) → length (f ys) ≡ length ys)
    → length (from_index p f xs) ≡ length xs
unfolding from_index
length-from_index zero f xs h = h xs
length-from_index (suc p) f [] h = refl
length-from_index (suc p) f (x ∷ xs) h = ap suc (length-from_index p f xs h)

pub from_index-AllDigits :
    (p : ℕ) (f : List ℕ → List ℕ) (xs : List ℕ)
    → AllDigits xs
    → ((ys : List ℕ) → AllDigits ys → AllDigits (f ys))
    → AllDigits (from_index p f xs)
unfolding from_index
from_index-AllDigits zero f xs h k = k xs h
from_index-AllDigits (suc p) f [] h k = tt
from_index-AllDigits (suc p) f (x ∷ xs) h k = (h.0, from_index-AllDigits p f xs h.1 k)

pub lt_of_mul : (k a b : ℕ) → k * a < k * b → a < b
lt_of_mul k a b h = elim (Bool-cases (ltb a b)) [
  | inl e ↦ ltb→lt a b e
  | inr e ↦
      let above : b ≤ a = ground arith in let over = mul-le-mul_left k above in absurd (omega arith)
]

pub cancel : (k a b : ℕ) → 1 ≤ k → a * k ≡ b * k → a ≡ b
cancel k a b h e = sym (mul-div_cancel a h) ∙ ap (λ t. t / k) e ∙ mul-div_cancel b h
