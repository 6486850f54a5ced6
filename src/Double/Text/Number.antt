-- ===== src/Double/Text/Number.antt =====
-- common/strformat.c, TW_WriteDouble as a whole: the text of a double.
use native.Mathlib.Nat.{
  mod-lt, pow-le-pow_right, pow-suc, one-le-pow, div-lt_iff_lt-mul, div-le_of_le-mul, le_trans,
}
use libtwilight.Prelude.{
  ℕ, suc, ◌+◌, ◌-◌, ◌*◌, ◌/◌, ◌^◌, ◌<◌, ◌≤◌, ◌≡◌, inl, inr, refl, ap, sym, ◌∙◌, arith, true, false,
  List, [], ◌∷◌, ◌++◌, length, length-append, length-take, take, take_all, Bool-cases, ltb, ltb→lt,
  ◌==◌, if◌then◌else◌, replicate, codes,
}
use libtwilight.Integer.{emit}
use libtwilight.Integer.Layout.{emit_all}
use libtwilight.Double.{digits_of}
use libtwilight.Double.Value.{pow_add}
use libtwilight.Double.Text.Round.{round_up-le}
use libtwilight.Double.Interval.{interval, smaller, smaller-bounds}
use libtwilight.Double.Widened.{interval_split}
use libtwilight.Double.Exact.{
  digits_of-IsTotal, digits_of-first, digits_of-inside, digits_of-end, digits_of-below, whole_room,
}
use libtwilight.Double.Text.{
  exponent_of, mantissa_of, sign_of, at_least_one, write_digits, write_double,
}
use libtwilight.Double.Text.Reading.{IsDecimal}
use libtwilight.Double.Text.Decimal.{nearest, write_digits-IsDecimal}

sign-take : (m word : ℕ) → 1 ≤ m → sign_of word ≡ take m (sign_of word)
sign-take m word h = elim (Bool-cases (word / 2 ^ 63 == 0)) [
  | inl b ↦ rw b (sym (take_all m [] (omega arith)))
  | inr b ↦ rw b (sym (take_all m (b'-' ∷ []) (omega arith)))
]

-- The value of a double, in steps of 10^-1074.
pub steps_of : ℕ → ℕ
steps_of word = (2 ^ 52 + mantissa_of word) * interval (exponent_of word)

-- The branches by the exponent.
write_double-normal :
    (m min_width precision word : ℕ)
    → 1 ≤ exponent_of word
    → exponent_of word ≤ 2046
    → write_double m min_width precision word
      ≡ write_digits m min_width precision
          (digits_of (exponent_of word) (mantissa_of word))
          (sign_of word)
unfolding write_double
write_double-normal m min_width precision word h k =
    let some : (exponent_of word == 0) ≡ false = ground arith in
    let few : (exponent_of word == 2047) ≡ false = ground arith in rw (some, few) refl

-- `TW_WriteDouble` of a normal number, for a precision of 1073 at most: the text is the sign, at least as many digits
-- as the minimal width asks for, the point and as many digits as the precision asks for, cut off at `maxSize`. Read
-- as a decimal number, the digits are the exact value, rounded down to the last digit, or up by one if the next digit
-- is above 5. Before the point there are no zeros that the width does not ask for.
pub write_double-IsDecimal :
    (max_size min_width precision word : ℕ)
    → 1 ≤ max_size
    → precision ≤ 1073
    → 1 ≤ exponent_of word
    → exponent_of word ≤ 2046
    → (text : List ℕ) × (write_double max_size min_width precision word
        ≡ take max_size (sign_of word ++ text))
      × IsDecimal (at_least_one min_width) precision (nearest precision (steps_of word)) text
unfolding steps_of
write_double-IsDecimal max_size min_width precision word room p h k =
    let e = exponent_of word in
    let v = mantissa_of word in
    let small : v < 2 ^ 52 = mod-lt word {m = 2 ^ 52} (omega arith) in
    let s = digits_of e v in
    let (left, right) = smaller-bounds (e - 1) 1022 in
    let first = digits_of-first e v h k small in
    let start = smaller (e - 1) 1022 in
    let q = 2 ^ (e - 1 - start) * 5 ^ (1074 - start) in
    let split : (2 ^ 52 + v) * interval e ≡ 10 ^ s.first_digit * ((2 ^ 52 + v) * q) =
      rw (first, interval_split e start left right) (grind arith) in
    let (text, written, decimal) =
      write_digits-IsDecimal max_size min_width precision ((2 ^ 52 + v) * interval e) s
        ((2 ^ 52 + v) * q) (sign_of word) (digits_of-IsTotal e v h k small) p
        (omega (arith, first, right)) split (omega (arith, digits_of-end e v h k small))
        (digits_of-inside e v h k small) (digits_of-below e v h k small)
        (sign-take max_size word room) in
    (text, write_double-normal max_size min_width precision word h k ∙ written, decimal)

write_double-zero :
    (m min_width precision word : ℕ)
    → exponent_of word ≡ 0
    → write_double m min_width precision word
      ≡ emit m
          (emit m (emit m (sign_of word) (replicate (at_least_one min_width) b'0')) (b'.' ∷ []))
          (replicate (at_least_one precision) b'0')
unfolding write_double emit
write_double-zero m min_width precision word h =
    let none : (exponent_of word == 0) ≡ true = ground arith in rw none refl

write_double-special :
    (m min_width precision word : ℕ)
    → exponent_of word ≡ 2047
    → write_double m min_width precision word
      ≡ emit m (sign_of word) (if mantissa_of word == 0 then codes "inf" else codes "nan")
unfolding write_double emit
write_double-special m min_width precision word h =
    let some : (exponent_of word == 0) ≡ false = ground arith in
    let all : (exponent_of word == 2047) ≡ true = ground arith in rw (some, all) refl

-- `TW_WriteDouble` writes no more than `maxSize` bytes for any double, if `maxSize` is not 0 and the precision is 1073
-- at most.
pub length-write_double :
    (max_size min_width precision word : ℕ)
    → 1 ≤ max_size
    → precision ≤ 1073
    → length (write_double max_size min_width precision word) ≤ max_size
length-write_double max_size min_width precision word room p =
    let from_take : (o : List ℕ)
        → write_double max_size min_width precision word ≡ take max_size o
        → length (write_double max_size min_width precision word) ≤ max_size =
      λ o e. rw e (omega (arith, length-take max_size o)) in
    elim (Bool-cases (exponent_of word == 0)) [
      | inl b ↦
          let sign = sign-take max_size word room in
          let wholes : List ℕ = replicate (at_least_one min_width) b'0' in
          from_take
            (((sign_of word ++ wholes) ++ b'.' ∷ []) ++ replicate (at_least_one precision) b'0')
            (write_double-zero max_size min_width precision word (ground arith)
              ∙ emit_all max_size ((sign_of word ++ wholes) ++ b'.' ∷ [])
                  (replicate (at_least_one precision) b'0')
                  (emit_all max_size (sign_of word ++ wholes) (b'.' ∷ [])
                    (emit_all max_size (sign_of word) wholes sign)))
      | inr b ↦ elim (Bool-cases (exponent_of word == 2047)) [
        | inl c ↦
            let name : List ℕ = if mantissa_of word == 0 then codes "inf" else codes "nan" in
            from_take (sign_of word ++ name) (
              write_double-special max_size min_width precision word (ground arith)
              ∙ emit_all max_size (sign_of word) name (sign-take max_size word room))
        | inr c ↦
            let bound = mod-lt (word / 2 ^ 52) {m = 2 ^ 11} (omega arith) in
            let (text, written, decimal) =
              write_double-IsDecimal max_size min_width precision word room p (ground arith)
                (ground arith) in
            from_take (sign_of word ++ text) written
      ]
    ]

lt_of_pow : (a b : ℕ) → 10 ^ a ≤ 10 ^ b → a ≤ b
lt_of_pow a b h = elim (Bool-cases (ltb b a)) [
  | inl e ↦
      let above : 10 ^ suc b ≤ 10 ^ a =
        pow-le-pow_right {n = 10} (omega arith) {i = suc b} {j = a} (ltb→lt b a e) in
      absurd (omega (arith, pow-suc 10 b, one-le-pow b 10 (omega arith)))
  | inr e ↦ ground arith
]

-- The whole part of a finite double has 310 digits at most.
whole-bound :
    (precision word : ℕ)
    → precision ≤ 1073
    → 1 ≤ exponent_of word
    → exponent_of word ≤ 2046
    → nearest precision (steps_of word) / 10 ^ precision ≤ 10 ^ 309
unfolding nearest steps_of
whole-bound precision word p h k =
    let v = steps_of word in
    let n = 1074 - precision in
    let small = mod-lt word {m = 2 ^ 52} (omega arith) in
    let room = whole_room (exponent_of word) (mantissa_of word) h k small in
    let whole : 309 + precision + n ≡ 1383 = omega arith in
    let weight : 10 ^ (309 + precision) * 10 ^ n ≡ 10 ^ 1383 =
      sym (pow_add 10 (309 + precision) n) ∙ ap (λ t. 10 ^ t) whole in
    let lower : v / 10 ^ n < 10 ^ (309 + precision) =
      (div-lt_iff_lt-mul {k = 10 ^ n} {x = v} {y = 10 ^ (309 + precision)}
          (one-le-pow n 10 (omega arith))).1
        (omega (arith, room, weight)) in
    let swap : 10 ^ (309 + precision) ≡ 10 ^ precision * 10 ^ 309 =
      let around : 309 + precision ≡ precision + 309 = omega arith in
      ap (λ t. 10 ^ t) around ∙ pow_add 10 precision 309 in
    div-le_of_le-mul (10 ^ precision) (omega (arith, lower, round_up-le precision v, swap))

-- A finite double takes 311 bytes and the precision, unless more digits are asked for.
pub text-short :
    (least precision word : ℕ) (text : List ℕ)
    → least ≤ 310
    → precision ≤ 1073
    → 1 ≤ exponent_of word
    → exponent_of word ≤ 2046
    → IsDecimal least precision (nearest precision (steps_of word)) text
    → length text ≤ 311 + precision
text-short least precision word text few p h k d =
    let whole : length d.whole ≤ 310 = elim d.whole_length [
      | inl e ↦ omega (arith, e)
      | inr (more, lead) ↦ omega (
        arith,
        lt_of_pow (length d.whole - 1) 309 (le_trans lead (whole-bound precision word p h k)),
      )
    ] in
    omega (
      arith,
      ap length d.parts,
      length-append d.whole (b'.' ∷ d.fraction),
      whole,
      d.fraction_length,
    )

pub sign-short : (word : ℕ) → length (sign_of word) ≤ 1
sign-short word = elim (Bool-cases (word / 2 ^ 63 == 0)) [
  | inl b ↦ rw b (omega arith)
  | inr b ↦ rw b (omega arith)
]
