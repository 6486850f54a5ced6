-- ===== src/Integer/Layout.antt =====
-- What TW_WriteInteger lays out: padding, sign, prefix, digits, cut off at the size of the buffer.
use libtwilight.Prelude.{
  ℕ, zero, suc, ◌+◌, ◌-◌, ◌≤◌, ◌<◌, ◌≡◌, refl, sym, ap, ◌∙◌, ◌≢◌, Bool, true, false, not, ◌&&◌,
  ◌||◌, List, [], ◌∷◌, ◌++◌, ltb, leb, ◌==◌, if◌then◌else◌, length, replicate, reverse, take,
  append-nil, append_assoc, arith, length-append, length-take, length-replicate, take_all,
  length-reverse, le→ltb, lt→ltb,
}
use Prim.Native.Nat.{max}
use native.Mathlib.Decide.{dec_lt}
use libtwilight.Prelude.Int.{ℤ, pos_part}
use libtwilight.Integer.{emit, flag, one_if, is_neg, magnitude, digit_loop, write_integer}

-- The digits, from the lowest on.
abbrev pub digits_of : ℕ → ℕ → ℕ → ℕ → List ℕ
digits_of bits base flags value = digit_loop 64 (flag flags 1) base (magnitude bits value)

-- The number of bytes that sign, prefix and digits take.
abbrev pub space_of : ℕ → ℕ → ℕ → ℕ → ℕ
space_of bits base flags value =
    length (digits_of bits base flags value)
    + one_if (is_neg bits value || flag flags 4)
    + one_if (flag flags 16 && (base == 16 || base == 8))
    + one_if (flag flags 16 && base == 16)

-- The segments of the text.
abbrev pub left_pad : ℕ → ℕ → ℕ → List ℕ
left_pad width space flags =
    if ltb space width && not (flag flags 2) && not (flag flags 8)
    then replicate (width - space) b' '
    else []

abbrev pub sign_text : Bool → ℕ → List ℕ
sign_text neg flags = if neg || flag flags 4 then (if neg then b'-' else b'+') ∷ [] else []

abbrev pub prefix_zero : ℕ → ℕ → List ℕ
prefix_zero base flags = if flag flags 16 && (base == 16 || base == 8) then b'0' ∷ [] else []

abbrev pub prefix_x : ℕ → ℕ → List ℕ
prefix_x base flags =
    if flag flags 16 && base == 16 then (if flag flags 1 then b'X' else b'x') ∷ [] else []

abbrev pub zero_fill : ℕ → ℕ → ℕ → List ℕ
zero_fill width space flags =
    if flag flags 2 && not (flag flags 8) then replicate (width - space) b'0' else []

abbrev pub right_pad : ℕ → ℕ → ℕ → List ℕ
right_pad width space flags =
    if ltb space width && flag flags 8 then replicate (width - space) b' ' else []

-- All the bytes of a value, with no limit on their number.
abbrev pub integer_text : ℤ → ℕ → ℕ → ℕ → ℕ → List ℕ
integer_text min_width bits base flags value =
    let width = pos_part min_width in
    let space = space_of bits base flags value in
    if value == 0 || leb base 1
    then replicate (max 1 width) b'0'
    else left_pad width space flags
      ++ sign_text (is_neg bits value) flags
      ++ prefix_zero base flags
      ++ prefix_x base flags
      ++ zero_fill width space flags
      ++ reverse (digits_of bits base flags value)
      ++ right_pad width space flags

take-append : (n : ℕ) (xs ys : List ℕ) → n ≤ length xs → take n (xs ++ ys) ≡ take n xs
take-append zero xs ys h = refl
take-append (suc n) [] ys h = absurd (omega arith)
take-append (suc n) (x ∷ xs) ys h = ap (λ (l : List ℕ). x ∷ l) (take-append n xs ys (omega arith))

-- The copying loops keep the first `max_size` bytes of what they are given.
emit-take : (m : ℕ) (o xs : List ℕ) → emit m (take m o) xs ≡ take m (o ++ xs)
unfolding emit
emit-take m o [] = ap (take m) (sym (append-nil o))
emit-take m o (x ∷ xs) = elim (dec_lt (length o) m) [
  | yes p ↦ rw (lt→ltb (length (take m o)) m (omega (arith, length-take m o))) (
      ap (λ (l : List ℕ). emit m l xs) (room p)
      ∙ emit-take m (o ++ x ∷ []) xs
      ∙ ap (take m) (append_assoc o (x ∷ []) xs))
  | no p ↦
      rw (le→ltb (length (take m o)) m (omega (arith, length-take m o)))
        (sym (take-append m o (x ∷ xs) (omega arith)))
]
  where
    room : length o < m → take m o ++ x ∷ [] ≡ take m (o ++ x ∷ [])
    room p =
        ap (λ (l : List ℕ). l ++ x ∷ []) (take_all m o (omega arith))
        ∙ sym (take_all m (o ++ x ∷ []) (omega (arith, length-append o (x ∷ []))))

emit_if :
    (m : ℕ) (b : Bool) (o xs : List ℕ) {out : List ℕ}
    → out ≡ take m o
    → (if b then emit m out xs else out) ≡ take m (o ++ (if b then xs else []))
emit_if m true o xs e = ap (λ (l : List ℕ). emit m l xs) e ∙ emit-take m o xs
emit_if m false o xs e = e ∙ ap (take m) (sym (append-nil o))

pub emit_all :
    (m : ℕ) (o xs : List ℕ) {out : List ℕ} → out ≡ take m o → emit m out xs ≡ take m (o ++ xs)
emit_all m o xs e = ap (λ (l : List ℕ). emit m l xs) e ∙ emit-take m o xs

take-nil : (m : ℕ) → take {A = ℕ} m [] ≡ []
take-nil zero = refl
take-nil (suc m) = refl

-- Seven segments, written one after the other where their tests say so, are the first `m` bytes of
-- the segments put together.
layout :
    (m : ℕ) (b₀ b₁ b₂ b₃ b₄ b₆ : Bool) (s₀ s₁ s₂ s₃ s₄ s₅ s₆ : List ℕ)
    → let out₀ = if b₀ then emit m [] s₀ else [] in
      let out₁ = if b₁ then emit m out₀ s₁ else out₀ in
      let out₂ = if b₂ then emit m out₁ s₂ else out₁ in
      let out₃ = if b₃ then emit m out₂ s₃ else out₂ in
      let out₄ = if b₄ then emit m out₃ s₄ else out₃ in
      let out₅ = emit m out₄ s₅ in
      (if b₆ then emit m out₅ s₆ else out₅)
      ≡ take m (
          (if b₀ then s₀ else [])
          ++ (if b₁ then s₁ else [])
          ++ (if b₂ then s₂ else [])
          ++ (if b₃ then s₃ else [])
          ++ (if b₄ then s₄ else [])
          ++ s₅
          ++ (if b₆ then s₆ else []))
layout m b₀ b₁ b₂ b₃ b₄ b₆ s₀ s₁ s₂ s₃ s₄ s₅ s₆ = emit_if m b₆ _ s₆ (
    emit_all m _ s₅ (
      emit_if m b₄ _ s₄ (
        emit_if m b₃ _ s₃
          (emit_if m b₂ _ s₂ (emit_if m b₁ _ s₁ (emit_if m b₀ [] s₀ (sym (take-nil m))))))))

either :
    (m : ℕ) (z : Bool) (c d : List ℕ) {a b : List ℕ}
    → a ≡ take m c
    → b ≡ take m d
    → (if z then a else b) ≡ take m (if z then c else d)
either m true c d p q = p
either m false c d p q = q

-- `TW_WriteInteger` writes the first `maxSize` bytes of the whole text of the value, for all flags,
-- widths, bases and values.
pub write_integer-take :
    (max_size : ℕ) (min_width : ℤ) (bits base flags value : ℕ)
    → write_integer max_size min_width bits base flags value
      ≡ take max_size (integer_text min_width bits base flags value)
unfolding write_integer
write_integer-take m w bits base flags value =
    let width = pos_part w in
    let space = space_of bits base flags value in
    let neg = is_neg bits value in
    either m (value == 0 || leb base 1) (replicate (max 1 width) b'0') _
      (emit_all m [] _ (sym (take-nil m)) ∙ ap (λ (n : ℕ). take m (replicate n b'0')) least)
      (layout m (ltb space width && not (flag flags 2) && not (flag flags 8)) (neg || flag flags 4)
        (flag flags 16 && (base == 16 || base == 8)) (flag flags 16 && base == 16)
        (flag flags 2 && not (flag flags 8)) (ltb space width && flag flags 8)
        (replicate (width - space) b' ') ((if neg then b'-' else b'+') ∷ []) (b'0' ∷ [])
        ((if flag flags 1 then b'X' else b'x') ∷ []) (replicate (width - space) b'0')
        (reverse (digits_of bits base flags value)) (replicate (width - space) b' '))
  where
    least : (if ltb (pos_part w) 1 then 1 else pos_part w) ≡ max 1 (pos_part w)
    least = ground arith

length_if :
    (b : Bool) (n : ℕ) (xs : List ℕ)
    → length xs ≡ n
    → length (if b then xs else []) ≡ (if b then n else 0)
length_if true n xs e = e
length_if false n xs e = refl

length_seven :
    (a b c d e f g : List ℕ)
    → length (a ++ b ++ c ++ d ++ e ++ f ++ g)
      ≡ length a + length b + length c + length d + length e + length f + length g
length_seven a b c d e f g = omega (
  arith,
  length-append (a ++ b ++ c ++ d ++ e ++ f) g,
  length-append (a ++ b ++ c ++ d ++ e) f,
  length-append (a ++ b ++ c ++ d) e,
  length-append (a ++ b ++ c) d,
  length-append (a ++ b) c,
  length-append a b,
)

-- Exactly one of the three paddings is as long as the missing width.
padding_sum :
    (z l : Bool) (space width : ℕ)
    → (if ltb space width && not z && not l then width - space else 0)
        + (if z && not l then width - space else 0)
        + (if ltb space width && l then width - space else 0)
      ≡ width - space
padding_sum true true space width = ground arith
padding_sum true false space width = ground arith
padding_sum false true space width = ground arith
padding_sum false false space width = ground arith

-- The text of a value other than 0 in a base of at least 2 is as long as the larger of the minimum
-- width and the space that sign, prefix and digits take, for all flags.
length-integer_text :
    (min_width : ℤ) (bits base flags value : ℕ)
    → value ≢ 0
    → 2 ≤ base
    → length (integer_text min_width bits base flags value)
      ≡ max (pos_part min_width) (space_of bits base flags value)
length-integer_text w bits base flags value ne le =
    let width = pos_part w in
    let space = space_of bits base flags value in
    let neg = is_neg bits value in
    let nonzero : (value == 0 || leb base 1) ≡ false = ground arith in
    rw nonzero (
      length_seven (left_pad width space flags) (sign_text neg flags) (prefix_zero base flags)
        (prefix_x base flags) (zero_fill width space flags)
        (reverse (digits_of bits base flags value)) (right_pad width space flags)
      ∙ omega (
        arith,
        length_if (ltb space width && not (flag flags 2) && not (flag flags 8)) (width - space)
            (replicate (width - space) b' ') (length-replicate (width - space) b' '),
        length_if (neg || flag flags 4) 1 ((if neg then b'-' else b'+') ∷ []) refl,
        length_if (flag flags 16 && (base == 16 || base == 8)) 1 (b'0' ∷ []) refl,
        length_if (flag flags 16 && base == 16) 1 ((if flag flags 1 then b'X' else b'x') ∷ []) refl,
        length_if (flag flags 2 && not (flag flags 8)) (width - space)
            (replicate (width - space) b'0') (length-replicate (width - space) b'0'),
        length-reverse (digits_of bits base flags value),
        length_if (ltb space width && flag flags 8) (width - space) (replicate (width - space) b' ')
            (length-replicate (width - space) b' '),
        padding_sum (flag flags 2) (flag flags 8) space width,
      ))
