-- ===== src/Double/Shift.antt =====
-- common/strformat.c, the loops of the shifts on channels: into a channel of zeros, and by SHIFT_DIGITS_RIGHT.
use mathlib.Core.Path.{subst}
use native.Mathlib.Nat.{pow-suc, one-le-pow, mul-div_cancel}
use libtwilight.Prelude.{
  ℕ, zero, suc, ◌+◌, ◌-◌, ◌*◌, ◌/◌, ◌%◌, ◌^◌, ◌<◌, ◌≤◌, ◌≡◌, inl, inr, refl, ap, sym, ◌∙◌, arith,
  Bool, true, false, List, [], ◌∷◌, length, take, drop,
}
use libtwilight.Double.{carry_loop, multiply_loop, right_loop, clear_loop, on_tail, kept}
use libtwilight.Double.Value.{value, AllDigits, pow_ten}
use libtwilight.Double.Multiply.{
  carry_loop-step, value-carry_loop, length-carry_loop, carry_loop-AllDigits,
}

kept-zero : (keep : Bool) (x : ℕ) → x ≡ 0 → kept keep x ≡ kept true x
kept-zero true x e = refl
kept-zero false x e = sym e

-- On zeros it does not matter whether a loop adds or overwrites.
carry_loop-zeros :
    (keep : Bool) (m a : ℕ) (xs : List ℕ)
    → value xs ≡ 0
    → carry_loop keep m a xs ≡ carry_loop true m a xs
unfolding carry_loop
carry_loop-zeros keep m a [] h = refl
carry_loop-zeros keep m a (x ∷ xs) h =
    let e = kept-zero keep x (omega arith) in
    let d = x + m % 10 + a in rw (e, carry_loop-zeros keep (m / 10) (d / 10) xs (omega arith)) refl

pub multiply_loop-zeros :
    (keep keep_carry : Bool) (n amount m a : ℕ) (src dst : List ℕ)
    → value dst ≡ 0
    → multiply_loop keep keep_carry n amount m a src dst
      ≡ multiply_loop true true n amount m a src dst
unfolding multiply_loop
multiply_loop-zeros keep keep_carry zero amount m a src dst h =
    carry_loop-zeros keep_carry m a dst h
multiply_loop-zeros keep keep_carry (suc n) amount m a [] dst h = refl
multiply_loop-zeros keep keep_carry (suc n) amount m a (d ∷ src) [] h = refl
multiply_loop-zeros keep keep_carry (suc n) amount m a (d ∷ src) (x ∷ dst) h =
    let e = kept-zero keep x (omega arith) in
    let d_m = d * 2 ^ amount + m in
    let d_a = x + d_m % 10 + a in
    rw (e, multiply_loop-zeros keep keep_carry n amount (d_m / 10) (d_a / 10) src dst (omega arith))
      refl

-- The rounds of the carry loop bound the digits written.
carry_loop-rounds :
    (m a : ℕ) (xs : List ℕ)
    → value xs ≡ 0
    → value (carry_loop true m a xs).0 < 10 ^ (carry_loop true m a xs).1
unfolding carry_loop
carry_loop-rounds m a [] h = omega arith
carry_loop-rounds m a (x ∷ xs) h =
    let d = x + m % 10 + a in
    let r = carry_loop true (m / 10) (d / 10) xs in
    elim (carry_loop-step true m a x xs) [
      | inl (none, no_carry, e) ↦ subst (λ q. value q.0 < 10 ^ q.1) (sym e) (omega arith)
      | inr e ↦
          subst (λ q. value q.0 < 10 ^ q.1) (sym e)
            (omega (arith, pow-suc 10 r.1, carry_loop-rounds (m / 10) (d / 10) xs (omega arith)))
    ]

pub multiply_loop-rounds :
    (n amount m a : ℕ) (src dst : List ℕ)
    → value dst ≡ 0
    → n ≤ length src
    → n ≤ length dst
    → value (multiply_loop true true n amount m a src dst).0
      < 10 ^ (n + (multiply_loop true true n amount m a src dst).1)
unfolding multiply_loop
multiply_loop-rounds zero amount m a src dst h k l =
    let r = carry_loop true m a dst in
    let e : zero + r.1 ≡ r.1 = omega arith in rw e (carry_loop-rounds m a dst h)
multiply_loop-rounds (suc n) amount m a [] dst h k l = absurd (omega arith)
multiply_loop-rounds (suc n) amount m a (d ∷ src) [] h k l = absurd (omega arith)
multiply_loop-rounds (suc n) amount m a (d ∷ src) (x ∷ dst) h k l =
    let d_m = d * 2 ^ amount + m in
    let d_a = x + d_m % 10 + a in
    let r = multiply_loop true true n amount (d_m / 10) (d_a / 10) src dst in
    let e : suc n + r.1 ≡ suc (n + r.1) = omega arith in
    rw e (
      omega (
        arith,
        pow-suc 10 (n + r.1),
        multiply_loop-rounds n amount (d_m / 10) (d_a / 10) src dst (omega arith) (omega arith)
            (omega arith),
      ))

pub value-clear_loop :
    (n : ℕ) (xs : List ℕ) → value (clear_loop n xs) + value (take n xs) ≡ value xs
unfolding clear_loop
value-clear_loop zero xs = omega arith
value-clear_loop (suc n) [] = omega arith
value-clear_loop (suc n) (x ∷ xs) = omega (arith, value-clear_loop n xs)

pub length-clear_loop : (n : ℕ) (xs : List ℕ) → length (clear_loop n xs) ≡ length xs
unfolding clear_loop
length-clear_loop zero xs = refl
length-clear_loop (suc n) [] = refl
length-clear_loop (suc n) (x ∷ xs) = ap suc (length-clear_loop n xs)

pub clear_loop-AllDigits : (n : ℕ) (xs : List ℕ) → AllDigits xs → AllDigits (clear_loop n xs)
unfolding clear_loop
clear_loop-AllDigits zero xs h = h
clear_loop-AllDigits (suc n) [] h = tt
clear_loop-AllDigits (suc n) (x ∷ xs) h = (omega arith, clear_loop-AllDigits n xs h.1)

-- `(d * 10^amount) >> amount` loses nothing.
halved : (d amount : ℕ) → d * 10 ^ amount / 2 ^ amount ≡ d * 5 ^ amount
halved d amount =
    let e : d * 10 ^ amount ≡ d * 5 ^ amount * 2 ^ amount = rw (pow_ten amount) (grind arith) in
    rw e (mul-div_cancel (d * 5 ^ amount) (one-le-pow amount 2 (omega arith)))

value-on_tail :
    (f : List ℕ → List ℕ) (c : List ℕ) (k : ℕ)
    → 0 < length c
    → value (f (drop 1 c)) ≡ value (drop 1 c) + k
    → value (on_tail f c) ≡ value c + 10 * k
value-on_tail f [] k h e = absurd (omega arith)
value-on_tail f (x ∷ c) k h e = omega (arith, e)

value_drop_one : (c : List ℕ) → 10 * value (drop 1 c) ≤ value c
value_drop_one [] = omega arith
value_drop_one (x ∷ c) = omega arith

length-drop_one : (c : List ℕ) → length (drop 1 c) ≡ length c - 1
length-drop_one [] = omega arith
length-drop_one (x ∷ c) = omega arith

pub value-right_loop :
    (n amount : ℕ) (src dst : List ℕ)
    → n ≤ length src
    → value dst + value (take n src) * 5 ^ amount < 10 ^ length dst
    → value (right_loop n amount (10 ^ amount) src dst)
      ≡ value dst + value (take n src) * 5 ^ amount
unfolding right_loop
value-right_loop zero amount src dst l h = omega arith
value-right_loop (suc n) amount [] dst l h = absurd (omega arith)
value-right_loop (suc n) amount (d ∷ src) [] l h = omega arith
value-right_loop (suc n) amount (d ∷ src) (x ∷ dst) l h =
    let p = 5 ^ amount in
    let v = value (take n src) in
    let distr : (d + 10 * v) * p ≡ d * p + 10 * (v * p) = grind arith in
    let c = (carry_loop true (d * 10 ^ amount / 2 ^ amount) 0 (x ∷ dst)).0 in
    let len : length c ≡ suc (length dst) = length-carry_loop true _ 0 (x ∷ dst) in
    let added : value c ≡ value (x ∷ dst) + d * p =
      value-carry_loop (d * 10 ^ amount / 2 ^ amount) 0 (x ∷ dst)
        (omega (arith, halved d amount, distr))
      ∙ omega (arith, halved d amount) in
    let room : length (drop 1 c) ≡ length dst = omega (arith, length-drop_one c, len) in
    let bound : value (drop 1 c) + v * p < 10 ^ length (drop 1 c) =
      rw room (omega (arith, value_drop_one c, added, distr, pow-suc 10 (length dst))) in
    value-on_tail (right_loop n amount (10 ^ amount) src) c (v * p) (omega (arith, len))
      (value-right_loop n amount src (drop 1 c) (omega arith) bound)
    ∙ omega (arith, added, distr)

length-on_tail :
    (f : List ℕ → List ℕ) (c : List ℕ)
    → ((ys : List ℕ) → length (f ys) ≡ length ys)
    → length (on_tail f c) ≡ length c
length-on_tail f [] h = refl
length-on_tail f (x ∷ c) h = ap suc (h c)

on_tail-AllDigits :
    (f : List ℕ → List ℕ) (c : List ℕ)
    → ((ys : List ℕ) → AllDigits ys → AllDigits (f ys))
    → AllDigits c
    → AllDigits (on_tail f c)
on_tail-AllDigits f [] h k = tt
on_tail-AllDigits f (x ∷ c) h k = (k.0, h c k.1)

pub length-right_loop :
    (n amount to_10th : ℕ) (src dst : List ℕ)
    → length (right_loop n amount to_10th src dst) ≡ length dst
unfolding right_loop
length-right_loop zero amount to_10th src dst = refl
length-right_loop (suc n) amount to_10th [] dst = refl
length-right_loop (suc n) amount to_10th (d ∷ src) dst =
    length-on_tail (right_loop n amount to_10th src)
      (carry_loop true (d * to_10th / 2 ^ amount) 0 dst).0 (length-right_loop n amount to_10th src)
    ∙ length-carry_loop true (d * to_10th / 2 ^ amount) 0 dst

pub right_loop-AllDigits :
    (n amount to_10th : ℕ) (src dst : List ℕ)
    → AllDigits dst
    → AllDigits (right_loop n amount to_10th src dst)
unfolding right_loop
right_loop-AllDigits zero amount to_10th src dst h = h
right_loop-AllDigits (suc n) amount to_10th [] dst h = h
right_loop-AllDigits (suc n) amount to_10th (d ∷ src) dst h =
    on_tail-AllDigits (right_loop n amount to_10th src)
      (carry_loop true (d * to_10th / 2 ^ amount) 0 dst).0
      (right_loop-AllDigits n amount to_10th src)
      (carry_loop-AllDigits true (d * to_10th / 2 ^ amount) 0 dst h)
