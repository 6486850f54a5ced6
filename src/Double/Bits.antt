-- ===== src/Double/Bits.antt =====
-- common/strformat.c, TW_WriteDouble: the loops over the bits of the mantissa.
use mathlib.Core.Path.{subst}
use native.Mathlib.Nat.{
  one-le-pow, pow-suc, div-div-eq-div-mul, mod-lt, add_comm, add-mul-div_right,
}
use libtwilight.Prelude.{
  ℕ, zero, suc, ◌+◌, ◌-◌, ◌*◌, ◌/◌, ◌%◌, ◌^◌, ◌<◌, ◌≤◌, ◌≡◌, inl, inr, refl, ap, sym, ◌∙◌, arith,
  Bool, true, false, ◌||◌, Bool-cases, ◌==◌,
}
use libtwilight.Prelude.Bits.{halve_mod}
use libtwilight.Double.{Digits, size, add_bits, add_multiple, is_bit}
use libtwilight.Double.Value.{pow_add}
use libtwilight.Double.Channel.{IsSource, IsCleared, IsTotal}
use libtwilight.Double.Add.{add_multiple-IsTotal, add_multiple-IsSource}

-- The bits of `word` from `i` on.
bits-suc :
    (word n i : ℕ)
    → word / 2 ^ i % 2 ^ suc n * 2 ^ i
      ≡ word / 2 ^ i % 2 * 2 ^ i + word / 2 ^ suc i % 2 ^ n * 2 ^ suc i
bits-suc word n i =
    let next : word / 2 ^ i / 2 ≡ word / 2 ^ suc i =
      div-div-eq-div-mul word (2 ^ i) 2 ∙ ap (λ t. word / t) (sym (pow-suc 2 i)) in
    rw
      (
        pow-suc 2 n,
        halve_mod (2 ^ n) (word / 2 ^ i) (one-le-pow n 2 (omega arith)),
        next,
        pow-suc 2 i,
      )
      (grind arith)

-- What every addition preserves.
pub add_bits-keeps :
    (P : Digits → Type 0)
    → ((amount : ℕ) (s : Digits) → P s → P (add_multiple amount s))
    → (is_set : ℕ → Bool) (n i : ℕ) (s : Digits) → P s
    → P (add_bits is_set n i s)
unfolding add_bits
add_bits-keeps P keep is_set zero i s h = h
add_bits-keeps P keep is_set (suc n) i s h = elim (Bool-cases (is_set i)) [
  | inl b ↦ rw b (add_bits-keeps P keep is_set n (suc i) (add_multiple i s) (keep i s h))
  | inr b ↦ rw b (add_bits-keeps P keep is_set n (suc i) s h)
]

-- Only channel 2 changes.
abbrev pub Rest : ℕ → ℕ → ℕ → Digits → Type 0
Rest number first last s =
    IsSource s number × IsCleared s × (s.first_digit ≡ first) × (s.end_digit ≡ last)

pub add_multiple-Rest :
    (number first last amount : ℕ) (s : Digits)
    → Rest number first last s
    → Rest number first last (add_multiple amount s)
unfolding add_multiple
add_multiple-Rest number first last amount s (h, c, f, l) = (
  add_multiple-IsSource amount s number h,
  record {
    other_length = c.other_length;
    other_digits = c.other_digits;
    other_value = c.other_value;
  },
  f,
  l,
)

bit_one : (x : ℕ) → (x % 2 == 1) ≡ true → x % 2 ≡ 1
bit_one x h = ground arith

bit_none : (x : ℕ) → (x % 2 == 1) ≡ false → x % 2 ≡ 0
bit_none x h = ground arith

pub add_bits-IsTotal :
    (is_set : ℕ → Bool) (word n i : ℕ) (s : Digits) (number total : ℕ)
    → IsSource s number
    → IsTotal s total
    → ((j : ℕ) → i ≤ j → j < i + n → is_set j ≡ is_bit word j)
    → total + number * (word / 2 ^ i % 2 ^ n * 2 ^ i) < 10 ^ size
    → IsTotal (add_bits is_set n i s) (total + number * (word / 2 ^ i % 2 ^ n * 2 ^ i))
unfolding add_bits
add_bits-IsTotal is_set word zero i s number total h t agrees room =
    let none : word / 2 ^ i % 2 ^ zero ≡ 0 =
      omega (arith, mod-lt (word / 2 ^ i) {m = 1} (omega arith)) in
    let same : total ≡ total + number * (word / 2 ^ i % 2 ^ zero * 2 ^ i) = rw none (omega arith) in
    subst (IsTotal s) same t
add_bits-IsTotal is_set word (suc n) i s number total h t agrees room =
    let rest = word / 2 ^ suc i % 2 ^ n * 2 ^ suc i in
    let later : (j : ℕ) → suc i ≤ j → j < suc i + n → is_set j ≡ is_bit word j =
      λ j k l. agrees j (omega arith) (omega arith) in
    elim (Bool-cases (is_set i)) [
      | inl b ↦
          let one : word / 2 ^ i % 2 ≡ 1 =
            bit_one (word / 2 ^ i) (sym (agrees i (omega arith) (omega arith)) ∙ b) in
          let sum : total + number * (word / 2 ^ i % 2 ^ suc n * 2 ^ i)
              ≡ total + number * 2 ^ i + number * rest =
            rw (bits-suc word n i, one) (grind arith) in
          rw b (
            subst (IsTotal (add_bits is_set n (suc i) (add_multiple i s))) (sym sum) (
              add_bits-IsTotal is_set word n (suc i) (add_multiple i s) number
                (total + number * 2 ^ i) (add_multiple-IsSource i s number h)
                (add_multiple-IsTotal i s number total h t (omega (arith, sum))) later
                (omega (arith, sum))))
      | inr b ↦
          let no : word / 2 ^ i % 2 ≡ 0 =
            bit_none (word / 2 ^ i) (sym (agrees i (omega arith) (omega arith)) ∙ b) in
          let sum : total + number * (word / 2 ^ i % 2 ^ suc n * 2 ^ i) ≡ total + number * rest =
            rw (bits-suc word n i, no) (grind arith) in
          rw b (
            subst (IsTotal (add_bits is_set n (suc i) s)) (sym sum) (
              add_bits-IsTotal is_set word n (suc i) s number total h t later (omega (arith, sum))))
    ]

-- The bits of the upper part of the mantissa with the leading one, as the second loop reads them.
pub leading_bits :
    (v : ℕ)
    → v < 2 ^ 25
    → (j : ℕ) → 0 ≤ j
    → j < 0 + 26
    → ((j == 25) || is_bit v j) ≡ is_bit (2 ^ 25 + v) j
leading_bits v small j k l = elim (Bool-cases (j == 25)) [
  | inl b ↦
      let e : j ≡ 25 = ground arith in
      let top : (2 ^ 25 + v) / 2 ^ 25 ≡ 1 = omega arith in rw (e, top) refl
  | inr b ↦
      let whole : 2 ^ 25 ≡ 2 ^ (24 - j) * 2 * 2 ^ j =
        let parts : 25 ≡ suc (24 - j) + j = ground arith in
        ap (λ t. 2 ^ t) parts ∙ pow_add 2 (suc (24 - j)) j ∙ rw (pow-suc 2 (24 - j)) refl in
      let above : (2 ^ 25 + v) / 2 ^ j ≡ v / 2 ^ j + 2 ^ (24 - j) * 2 =
        ap (λ t. t / 2 ^ j) (ap (λ t. t + v) whole ∙ add_comm _ v)
        ∙ add-mul-div_right v (2 ^ (24 - j) * 2) (one-le-pow j 2 (omega arith)) in
      let same : (v / 2 ^ j + 2 ^ (24 - j) * 2) % 2 ≡ v / 2 ^ j % 2 = omega arith in
      rw (b, above, same) refl
]
