-- ===== src/Double/Text/Decimal.antt =====
-- common/strformat.c, TW_WriteDouble: the text of a number that is neither 0 nor subnormal, infinite or no number.
use mathlib.Core.Path.{subst}
use native.Mathlib.Nat.{pow-suc, one-le-pow, add-mul-div_left, mul-le-mul_left, pow-le-pow_right}
use libtwilight.Prelude.{
  ℕ, suc, ◌+◌, ◌-◌, ◌*◌, ◌/◌, ◌^◌, ◌<◌, ◌≤◌, ◌≡◌, refl, ap, sym, ◌∙◌, arith, List, [], ◌∷◌, ◌++◌,
  length, length-append, take, append_assoc, replicate,
}
use libtwilight.Double.{Digits, size}
use libtwilight.Double.Value.{value, AllDigits}
use libtwilight.Double.Channel.{IsTotal}
use libtwilight.Double.Interval.{value_before_zeros, append-AllDigits}
use libtwilight.Double.Text.{
  whole_loop, zeros_loop, fraction_loop, write_fraction, rounded, trimmed, pad_zeros, write_digits,
  at_least_one,
}
use libtwilight.Double.Text.Round.{
  round_up, round_up-le, value-rounded, rounded-AllDigits, trimmed-lem, get_or-rounded,
}
use libtwilight.Double.Text.Spell.{decimals}
use libtwilight.Double.Text.Emit.{pad_zeros-take, write_parts}
use libtwilight.Double.Text.Reading.{IsDecimal, text-IsDecimal}

-- The number printed, in steps of `10 ^ -precision`: rounded down, or up if the next digit is above 5.
unfoldable pub nearest : ℕ → ℕ → ℕ
nearest precision number = number / 10 ^ (1074 - precision) + round_up precision number

nearest-rounded :
    (precision : ℕ) (digits : List ℕ)
    → AllDigits digits
    → length digits ≡ 1384
    → precision ≤ 1073
    → value digits < 10 ^ 1383
    → value (rounded precision digits) / 10 ^ (1074 - precision) ≡ nearest precision (value digits)
unfolding nearest
nearest-rounded precision digits h len k room =
    ap (λ t. t / 10 ^ (1074 - precision)) (value-rounded precision digits h len k room)
    ∙ add-mul-div_left (value digits) (round_up precision (value digits))
        (one-le-pow (1074 - precision) 10 (omega arith))

rounded-below :
    (precision end : ℕ) (digits : List ℕ)
    → AllDigits digits
    → length digits ≡ 1384
    → precision ≤ 1073
    → value digits < 10 ^ end
    → 1074 ≤ end
    → end ≤ 1383
    → value (rounded precision digits) < 10 ^ suc end
rounded-below precision end digits h len k below high inside =
    let n = 1074 - precision in
    let up = mul-le-mul_left (10 ^ n) (round_up-le precision (value digits)) in
    let small : 10 ^ n ≤ 10 ^ end =
      pow-le-pow_right {n = 10} (omega arith) {i = n} {j = end} (omega arith) in
    let all : 10 ^ end ≤ 10 ^ 1383 =
      pow-le-pow_right {n = 10} (omega arith) {i = end} {j = 1383} inside in
    omega (
      arith,
      value-rounded precision digits h len k (omega (arith, all)),
      up,
      small,
      pow-suc 10 end,
    )

one_at_least : (n : ℕ) → 1 ≤ at_least_one n
one_at_least n = ground arith

-- `write_digits` with the length of the digits in use given.
write_digits-parts :
    (m min_width precision : ℕ) (s : Digits) (out : List ℕ) (n : ℕ)
    → suc (trimmed (rounded precision (s.total ++ 0 ∷ [])) s.end_digit) ≡ n
    → let digits = rounded precision (s.total ++ 0 ∷ []) in
      let padded = pad_zeros m (at_least_one min_width) (trimmed digits s.end_digit) out in
      let r = whole_loop m s.first_digit digits n padded in
      write_digits m min_width precision s out
      ≡ write_fraction m precision s.first_digit digits r.1 r.0
unfolding write_digits whole_loop write_fraction zeros_loop fraction_loop rounded trimmed pad_zeros
write_digits-parts m min_width precision s out n e =
    let digits = rounded precision (s.total ++ 0 ∷ []) in
    let padded = pad_zeros m (at_least_one min_width) (trimmed digits s.end_digit) out in
    subst
      (λ (n : ℕ).
        let r = whole_loop m s.first_digit digits n padded in
        write_digits m min_width precision s out
        ≡ write_fraction m precision s.first_digit digits r.1 r.0)
      e refl

-- The text of the digits of a number.
module _ (m min_width precision number : ℕ) (s : Digits) (q : ℕ) (o : List ℕ) (t : IsTotal s number)
    (p : precision ≤ 1073) (first : s.first_digit ≤ 1022) (split : number ≡ 10 ^ s.first_digit * q)
    (high : 1074 ≤ s.end_digit) (inside : s.end_digit ≤ size) (below : number < 10 ^ s.end_digit)
    (start : o ≡ take m o) where
  abbrev before : List ℕ
  before = s.total ++ 0 ∷ []

  abbrev after : List ℕ
  after = rounded precision before

  before_value : value before ≡ number
  before_value = value_before_zeros 1 s.total ∙ t.total_value

  before-AllDigits : AllDigits before
  before-AllDigits = append-AllDigits s.total (0 ∷ []) t.total_digits (omega arith, tt)

  before-length : length before ≡ 1384
  before-length = length-append s.total (0 ∷ []) ∙ omega (arith, t.total_length)

  before_room : value before < 10 ^ 1383
  before_room =
      let all : 10 ^ s.end_digit ≤ 10 ^ 1383 =
        pow-le-pow_right {n = 10} (omega arith) {i = s.end_digit} {j = 1383} inside in
      omega (arith, before_value, below, all)

  after-AllDigits : AllDigits after
  after-AllDigits = rounded-AllDigits precision before before-AllDigits before-length p before_room

  pub write_digits-IsDecimal :
      (text : List ℕ) × (write_digits m min_width precision s o ≡ take m (o ++ text))
      × IsDecimal (at_least_one min_width) precision (nearest precision number) text
  write_digits-IsDecimal =
      let least = at_least_one min_width in
      let (top_high, top_below, top_lead) = trimmed-lem after s.end_digit after-AllDigits high (
        rounded-below precision s.end_digit before before-AllDigits before-length p
          (rw before_value below) high inside) in
      let top = trimmed after s.end_digit in
      let k = top - 1073 in
      let next : suc top ≡ 1074 + k = omega (arith, top_high) in
      let same : top ≡ 1073 + k = omega (arith, top_high) in
      let fill : least + 1073 - top ≡ least - k = omega (arith, top_high) in
      let zeros : List ℕ = replicate (least - k) b'0' in
      let rest = decimals k (1074 + k) after ++ b'.' ∷ decimals precision 1074 after in
      let padded : pad_zeros m least top o ≡ take m (o ++ zeros) =
        pad_zeros-take m least top o o start top_high
        ∙ ap (λ n. take m (o ++ replicate n b'0')) fill in
      (
        (zeros ++ decimals k (1074 + k) after) ++ b'.' ∷ decimals precision 1074 after,
        write_digits-parts m min_width precision s o (1074 + k) next
            ∙ (write_parts m precision s.first_digit k after (o ++ zeros) (pad_zeros m least top o)
                padded (omega arith) (omega arith)
                (λ i l.
                  get_or-rounded precision s.first_digit q i before before-AllDigits
                    (before_value ∙ split) l))
            ∙ ap (take m) (
                append_assoc o zeros rest
                ∙ ap (λ r. o ++ r)
                    (sym (
                      append_assoc zeros (decimals k (1074 + k) after)
                        (b'.' ∷ decimals precision 1074 after)))),
        subst
            (λ v.
              IsDecimal least precision v
                ((zeros ++ decimals k (1074 + k) after) ++ b'.' ∷ decimals precision 1074 after))
            (nearest-rounded precision before before-AllDigits before-length p before_room
              ∙ ap (nearest precision) before_value)
            (text-IsDecimal least precision k after after-AllDigits (omega arith)
              (rw (← next) top_below) (one_at_least min_width) (omega (arith, top_high))
              (λ l. rw (← same) (top_lead (omega (arith, same))))),
      )
