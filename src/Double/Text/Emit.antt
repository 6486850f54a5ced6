-- ===== src/Double/Text/Emit.antt =====
-- common/strformat.c, TW_WriteDouble: the loops that write the text, each of which stops at `maxSize` bytes.
use libtwilight.Prelude.{
  ℕ, zero, suc, ◌+◌, ◌-◌, ◌<◌, ◌≤◌, ◌≡◌, ◌⊎◌, inl, inr, refl, ap, sym, ◌∙◌, arith, true, false,
  List, [], ◌∷◌, ◌++◌, append_assoc, append-nil, length, take, get_or, replicate, Bool-cases, ltb,
  leb, ltb→lt, lt→ltb, le→ltb,
}
use libtwilight.Integer.{emit}
use libtwilight.Integer.Layout.{emit_all}
use libtwilight.Double.Text.{pad_zeros, whole_loop, zeros_loop, fraction_loop, write_fraction}
use libtwilight.Double.Text.Spell.{decimals, decimals-zeros}

emit_full : (m : ℕ) (out xs : List ℕ) → m ≤ length out → emit m out xs ≡ out
unfolding emit
emit_full m out [] h = refl
emit_full m out (x ∷ xs) h = rw (le→ltb (length out) m h) refl

take_full :
    (m : ℕ) (o xs : List ℕ) {out : List ℕ}
    → out ≡ take m o
    → m ≤ length out
    → out ≡ take m (o ++ xs)
take_full m o xs {out} e h = sym (emit_full m out xs h) ∙ emit_all m o xs e

emit_one : (m c : ℕ) (out : List ℕ) → length out < m → emit m out (c ∷ []) ≡ out ++ c ∷ []
unfolding emit
emit_one m c out h = rw (lt→ltb (length out) m h) refl

take_push :
    (m c : ℕ) (o : List ℕ) {out : List ℕ}
    → out ≡ take m o
    → length out < m
    → out ++ c ∷ [] ≡ take m (o ++ c ∷ [])
take_push m c o {out} e h = sym (emit_one m c out h) ∙ emit_all m o (c ∷ []) e

-- There is room for one byte more, or none.
room-cases :
    (m : ℕ) (out : List ℕ)
    → ((ltb (length out) m ≡ true) × (length out < m))
      ⊎ ((ltb (length out) m ≡ false) × (m ≤ length out))
room-cases m out = elim (Bool-cases (ltb (length out) m)) [
  | inl e ↦ inl (e, ltb→lt (length out) m e)
  | inr e ↦ inr (e, ground arith)
]

pub pad_zeros-take :
    (m n in_pos : ℕ) (o out : List ℕ)
    → out ≡ take m o
    → 1074 ≤ in_pos
    → pad_zeros m n in_pos out ≡ take m (o ++ replicate (n + 1073 - in_pos) b'0')
unfolding pad_zeros
pad_zeros-take m zero in_pos o out e h =
    let none : zero + 1073 - in_pos ≡ 0 = omega arith in rw (none, append-nil o) e
pad_zeros-take m (suc n) in_pos o out e h = elim (Bool-cases (ltb in_pos (1074 + n))) [
  | inl b ↦
      let more : suc n + 1073 - in_pos ≡ suc (n + 1073 - in_pos) = ground arith in
      elim (room-cases m out) [
        | inl (c, r) ↦
            rw (b, c, more)
              (pad_zeros-take m n in_pos (o ++ b'0' ∷ []) (out ++ b'0' ∷ [])
                  (take_push m b'0' o e r) h
                ∙ ap (take m) (append_assoc o (b'0' ∷ []) (replicate (n + 1073 - in_pos) b'0')))
        | inr (c, r) ↦ rw (b, c) (take_full m o (replicate (suc n + 1073 - in_pos) b'0') e r)
      ]
  | inr b ↦ let none : suc n + 1073 - in_pos ≡ 0 = ground arith in rw (b, none, append-nil o) e
]

whole_loop-stop :
    (m first : ℕ) (digits out : List ℕ) → whole_loop m first digits 1074 out ≡ (out, 1074)
unfolding whole_loop
whole_loop-stop m first digits out = elim (Bool-cases (ltb (length out) m)) [
  | inl b ↦ rw b refl
  | inr b ↦ rw b refl
]

-- The whole part, and that the loop ends at the point or at a full buffer.
pub whole_loop-take :
    (m first : ℕ) (digits : List ℕ) (k : ℕ) (o out : List ℕ)
    → out ≡ take m o
    → first ≤ 1074
    → let r = whole_loop m first digits (1074 + k) out in
      (r.0 ≡ take m (o ++ decimals k (1074 + k) digits)) × ((r.1 ≡ 1074) ⊎ (m ≤ length r.0))
unfolding whole_loop decimals
whole_loop-take m first digits zero o out e h = (
  ap (λ r. r.0) (whole_loop-stop m first digits out) ∙ e ∙ ap (take m) (sym (append-nil o)),
  inl (ap (λ r. r.1) (whole_loop-stop m first digits out)),
)
whole_loop-take m first digits (suc k) o out e h =
    let next : 1074 + suc k ≡ suc (1074 + k) = omega arith in
    let inside : leb 1074 (1074 + k) ≡ true = ground arith in
    let below : leb first (1074 + k) ≡ true = ground arith in
    let c = b'0' + get_or digits (1074 + k) 0 in
    elim (room-cases m out) [
      | inl (b, r) ↦
          let (text, end) =
            whole_loop-take m first digits k (o ++ c ∷ []) (out ++ c ∷ []) (take_push m c o e r)
              h in
          rw (next, b, inside, below)
            (text ∙ ap (take m) (append_assoc o (c ∷ []) (decimals k (1074 + k) digits)), end)
      | inr (b, r) ↦
          rw (next, b) (take_full m o (decimals (suc k) (suc (1074 + k)) digits) e r, inr r)
    ]

-- A loop over the digits of the fraction, with the zeros for the digits below the first.
pub fraction_loop-take :
    (m first : ℕ) (digits : List ℕ) (n left : ℕ) (o out : List ℕ)
    → out ≡ take m o
    → ((i : ℕ) → i < first → get_or digits i 0 ≡ 0)
    → n ≤ left
    → let r = fraction_loop m first digits n left out in
      emit m r.0 (replicate r.1 b'0') ≡ take m (o ++ decimals n left digits)
unfolding fraction_loop decimals emit
fraction_loop-take m first digits zero left o out e h l = e ∙ ap (take m) (sym (append-nil o))
fraction_loop-take m first digits (suc n) zero o out e h l = absurd (omega arith)
fraction_loop-take m first digits (suc n) (suc i) o out e h l =
    let c = b'0' + get_or digits i 0 in
    elim (room-cases m out) [
      | inl (b, r) ↦ elim (Bool-cases (leb first i)) [
        | inl f ↦
            rw (b, f)
              (fraction_loop-take m first digits n i (o ++ c ∷ []) (out ++ c ∷ [])
                  (take_push m c o e r) h (omega arith)
                ∙ ap (take m) (append_assoc o (c ∷ []) (decimals n i digits)))
        | inr f ↦
            let zeros = decimals-zeros (suc n) (suc i) first digits h (ground arith) l in
            rw (b, f)
              (emit_all m o (replicate (suc n) b'0') e ∙ ap (λ t. take m (o ++ t)) (sym zeros))
      ]
      | inr (b, r) ↦ rw b (
          emit_full m out (replicate (suc n) b'0') r
          ∙ take_full m o (decimals (suc n) (suc i) digits) e r)
    ]

zeros_loop-full :
    (m n i left : ℕ) (out : List ℕ) → m ≤ length out → zeros_loop m n i left out ≡ (out, n)
unfolding zeros_loop
zeros_loop-full m zero i left out h = refl
zeros_loop-full m (suc n) i left out h = rw (le→ltb (length out) m h) refl

fraction_loop-full :
    (m first : ℕ) (digits : List ℕ) (n left : ℕ) (out : List ℕ)
    → m ≤ length out
    → fraction_loop m first digits n left out ≡ (out, n)
unfolding fraction_loop
fraction_loop-full m first digits zero left out h = refl
fraction_loop-full m first digits (suc n) zero out h = refl
fraction_loop-full m first digits (suc n) (suc i) out h = rw (le→ltb (length out) m h) refl

-- Behind the units there is no zero to be written before the digits.
zeros_loop-point : (m n : ℕ) (out : List ℕ) → zeros_loop m n 0 1074 out ≡ (out, n)
unfolding zeros_loop
zeros_loop-point m zero out = refl
zeros_loop-point m (suc n) out = elim (Bool-cases (ltb (length out) m)) [
  | inl b ↦ rw b refl
  | inr b ↦ rw b refl
]

-- From the point on, with the buffer full.
write_fraction-full :
    (m precision first left : ℕ) (digits out : List ℕ)
    → m ≤ length out
    → write_fraction m precision first digits left out ≡ out
unfolding write_fraction
write_fraction-full m precision first left digits out h =
    let none : (zs : List ℕ) → emit m out zs ≡ out = λ zs. emit_full m out zs h in
    elim (Bool-cases (ltb 1075 left)) [
      | inl b ↦
          rw (b, none (replicate (first - 1074) b'0'), le→ltb (length out) m h)
            (none (replicate precision b'0'))
      | inr b ↦
          rw
            (
              b,
              le→ltb (length out) m h,
              zeros_loop-full m precision 0 left out h,
              fraction_loop-full m first digits precision left out h,
            )
            (none (replicate precision b'0'))
    ]

-- From the point on, behind the whole part.
write_fraction-point :
    (m precision first : ℕ) (digits o out : List ℕ)
    → out ≡ take m o
    → precision ≤ 1074
    → ((i : ℕ) → i < first → get_or digits i 0 ≡ 0)
    → write_fraction m precision first digits 1074 out
      ≡ take m (o ++ b'.' ∷ decimals precision 1074 digits)
unfolding write_fraction emit
write_fraction-point m precision first digits o out e h k =
    let point = emit m out (b'.' ∷ []) in
    rw (zeros_loop-point m precision point) (
      fraction_loop-take m first digits precision 1074 (o ++ b'.' ∷ []) point
        (emit_all m o (b'.' ∷ []) e) k h
      ∙ ap (take m) (append_assoc o (b'.' ∷ []) (decimals precision 1074 digits)))

-- From the whole part on.
pub write_parts :
    (m precision first k : ℕ) (digits o out : List ℕ)
    → out ≡ take m o
    → precision ≤ 1074
    → first ≤ 1074
    → ((i : ℕ) → i < first → get_or digits i 0 ≡ 0)
    → let r = whole_loop m first digits (1074 + k) out in
      write_fraction m precision first digits r.1 r.0
      ≡ take m (o ++ (decimals k (1074 + k) digits ++ b'.' ∷ decimals precision 1074 digits))
write_parts m precision first k digits o out e h l none =
    let r = whole_loop m first digits (1074 + k) out in
    let whole = decimals k (1074 + k) digits in
    let rest = b'.' ∷ decimals precision 1074 digits in
    let (text, end) = whole_loop-take m first digits k o out e l in
    elim end [
      | inl point ↦
          rw point (write_fraction-point m precision first digits (o ++ whole) r.0 text h none)
          ∙ ap (take m) (append_assoc o whole rest)
      | inr full ↦
          write_fraction-full m precision first r.1 digits r.0 full
          ∙ take_full m (o ++ whole) rest text full
          ∙ ap (take m) (append_assoc o whole rest)
    ]
