-- ===== src/Integer/Digits.antt =====
-- Reading the digits back gives the value that TW_WriteInteger was given.
use libtwilight.Prelude.{
  ℕ, zero, suc, ◌+◌, ◌-◌, ◌*◌, ◌/◌, ◌%◌, ◌^◌, ◌≤◌, ◌<◌, ◌≡◌, refl, sym, ap, ap₂, ◌∙◌, ◌≢◌, Bool,
  true, false, ◌||◌, List, [], ◌∷◌, ◌++◌, ltb, leb, ◌==◌, if◌then◌else◌, length, reverse, take,
  take_all, append-nil, arith, length-reverse, eq→==, ne→==, le→ltb, lt→ltb,
}
use mathlib.Core.List.{reverse-append}
use native.Mathlib.Nat.{pow-suc, div-lt_iff_lt-mul, div-add-mod', mod-lt, mod-eq_of_lt}
use native.Mathlib.Decide.{ℕ_discrete, dec_lt}
use libtwilight.Prelude.Int.{ℤ, pos, negsuc, signed32}
use libtwilight.Integer.{digit_loop, digit_char, divide_u64, is_neg, magnitude, write_integer}
use libtwilight.Integer.Layout.{write_integer-take, integer_text, space_of}

-- What a digit stands for: 0-9, a-f, A-F.
abbrev pub digit_value : ℕ → ℕ
digit_value c = if leb b'a' c then c - 87 else if leb b'A' c then c - 55 else c - 48

-- The number that digits spell behind `n`, from the highest on.
abbrev pub read_from : ℕ → ℕ → List ℕ → ℕ
read_from base n [] = n
read_from base n (c ∷ cs) = read_from base (n * base + digit_value c) cs

-- A signed number: a minus sign, or none, before the digits.
abbrev pub read_signed : ℕ → List ℕ → ℤ
read_signed base [] = pos 0
read_signed base (c ∷ cs) =
    if c == b'-' then negsuc (read_from base 0 cs - 1) else pos (read_from base 0 (c ∷ cs))

digit_value-digit_char : (up : Bool) (rem : ℕ) → rem < 16 → digit_value (digit_char up rem) ≡ rem
unfolding digit_char
digit_value-digit_char true rem h = ground arith
digit_value-digit_char false rem h = ground arith

pub read_from-append :
    (base n : ℕ) (xs ys : List ℕ)
    → read_from base n (xs ++ ys) ≡ read_from base (read_from base n xs) ys
read_from-append base n [] ys = refl
read_from-append base n (x ∷ xs) ys = read_from-append base (n * base + digit_value x) xs ys

halved : (room base v : ℕ) → 2 ≤ base → v < 2 ^ suc room → v / base < 2 ^ room
halved room base v h lt =
    (div-lt_iff_lt-mul {k = base} {x = v} {y = 2 ^ room} (omega arith)).1
      (grind (arith, pow-suc 2 room))

-- Enough room for the digits: they spell the value.
pub digit_loop-reads :
    (room base v : ℕ) (up : Bool)
    → 2 ≤ base
    → base ≤ 16
    → v < 2 ^ room
    → read_from base 0 (reverse (digit_loop room up base v)) ≡ v
unfolding digit_loop divide_u64
digit_loop-reads zero base v up lo hi h = omega arith
digit_loop-reads (suc room) base v up lo hi h = elim (ℕ_discrete v 0) [
  | yes e ↦ rw (eq→== v 0 e) (sym e)
  | no ne ↦ rw (ne→== v 0 ne) (
      ap (read_from base 0)
        (reverse-append (digit_char up (v % base) ∷ []) (digit_loop room up base (v / base)))
      ∙ read_from-append base 0 (reverse (digit_loop room up base (v / base)))
          (digit_char up (v % base) ∷ [])
      ∙ ap₂ (λ (a b : ℕ). a * base + b)
          (digit_loop-reads room base (v / base) up lo hi (halved room base v lo h))
          (digit_value-digit_char up (v % base) (omega (arith, mod-lt v {m = base} (omega arith))))
      ∙ div-add-mod' v base)
]

digit_loop-short : (room base v : ℕ) (up : Bool) → length (digit_loop room up base v) ≤ room
unfolding digit_loop divide_u64
digit_loop-short zero base v up = omega arith
digit_loop-short (suc room) base v up = ground (arith, digit_loop-short room base (v / base) up)

-- With no flags and no width the text of a value other than 0 is its sign and its digits.
plain_text :
    (m bits base value : ℕ)
    → value ≢ 0
    → 2 ≤ base
    → 65 ≤ m
    → write_integer m (pos 0) bits base 0 value
      ≡ (if is_neg bits value then b'-' ∷ [] else [])
        ++ reverse (digit_loop 64 false base (magnitude bits value))
plain_text m bits base value ne lo room =
    write_integer-take m (pos 0) bits base 0 value ∙ ap (take m) flat ∙ take_all m _ short
  where
    flat :
        integer_text (pos 0) bits base 0 value
        ≡ (if is_neg bits value then b'-' ∷ [] else [])
          ++ reverse (digit_loop 64 false base (magnitude bits value))
    flat =
        let nonzero : (value == 0 || leb base 1) ≡ false = ground arith in
        let wide : ltb (space_of bits base 0 value) 0 ≡ false = le→ltb _ _ (omega arith) in
        rw (nonzero, wide) (append-nil _ ∙ sign_only (is_neg bits value))
      where
        sign_only :
            (b : Bool)
            → (if b || false then (if b then b'-' else b'+') ∷ [] else [])
                ++ []
                ++ []
                ++ []
                ++ reverse (digit_loop 64 false base (magnitude bits value))
              ≡ (if b then b'-' ∷ [] else [])
                ++ reverse (digit_loop 64 false base (magnitude bits value))
        sign_only true = refl
        sign_only false = refl

    short :
        length (
          (if is_neg bits value then b'-' ∷ [] else [])
          ++ reverse (digit_loop 64 false base (magnitude bits value)))
        ≤ m
    short = sized (is_neg bits value)
      where
        sized :
            (b : Bool)
            → length (
                (if b then b'-' ∷ [] else [])
                ++ reverse (digit_loop 64 false base (magnitude bits value)))
              ≤ m
        sized true = omega (
          arith,
          length-reverse (digit_loop 64 false base (magnitude bits value)),
          digit_loop-short 64 base (magnitude bits value) false,
        )
        sized false = omega (
          arith,
          length-reverse (digit_loop 64 false base (magnitude bits value)),
          digit_loop-short 64 base (magnitude bits value) false,
        )

zero_text : (m bits base : ℕ) → 65 ≤ m → write_integer m (pos 0) bits base 0 0 ≡ b'0' ∷ []
zero_text m bits base room =
    write_integer-take m (pos 0) bits base 0 0 ∙ take_all m (b'0' ∷ []) (omega arith)

-- Reading the text of an unsigned value of `bits` bits gives the value back, in every base from 2 to
-- 16, when no flags and no width are given and the buffer has room for 65 bytes.
read-write_integer :
    (max_size bits base value : ℕ)
    → 65 ≤ max_size
    → bits % 2 ≡ 0
    → bits ≤ 64
    → value < 2 ^ bits
    → value < 2 ^ 64
    → 2 ≤ base
    → base ≤ 16
    → read_from base 0 (write_integer max_size (pos 0) bits base 0 value) ≡ value
unfolding is_neg magnitude
read-write_integer m bits base value room even small fits fits' lo hi = elim (ℕ_discrete value 0) [
  | yes e ↦
      let spelled : 0 * base + 0 ≡ 0 = omega arith in
      ap (λ (t : ℕ). read_from base 0 (write_integer m (pos 0) bits base 0 t)) e
      ∙ ap (read_from base 0) (zero_text m bits base room)
      ∙ spelled
      ∙ sym e
  | no ne ↦ ap (read_from base 0) (plain_text m bits base value ne lo room) ∙ digits ne
]
  where
    digits :
        value ≢ 0
        → read_from base 0 (
            (if is_neg bits value then b'-' ∷ [] else [])
            ++ reverse (digit_loop 64 false base (magnitude bits value)))
          ≡ value
    digits ne =
        let odd : (bits % 2 == 1) ≡ false = ground arith in
        rw odd (rw (mod-eq_of_lt fits) (digit_loop-reads 64 base value false lo hi fits'))

-- No byte of the list is a minus sign.
abbrev NoMinus : List ℕ → Type 0
NoMinus [] = Unit {0}
NoMinus (c ∷ cs) = (c ≢ b'-') × NoMinus cs

NoMinus-append : (xs ys : List ℕ) → NoMinus xs → NoMinus ys → NoMinus (xs ++ ys)
NoMinus-append [] ys _ h = h
NoMinus-append (x ∷ xs) ys (h, hs) k = (h, NoMinus-append xs ys hs k)

NoMinus-reverse : (xs : List ℕ) → NoMinus xs → NoMinus (reverse xs)
NoMinus-reverse [] h = tt
NoMinus-reverse (x ∷ xs) (h, hs) =
    rw (reverse-append (x ∷ []) xs)
      (NoMinus-append (reverse xs) (x ∷ []) (NoMinus-reverse xs hs) (h, tt))

digit_char-ne-minus : (up : Bool) (rem : ℕ) → rem < 16 → digit_char up rem ≢ b'-'
unfolding digit_char
digit_char-ne-minus true rem h = ground arith
digit_char-ne-minus false rem h = ground arith

digit_loop-NoMinus :
    (room base v : ℕ) (up : Bool) → 2 ≤ base → base ≤ 16 → NoMinus (digit_loop room up base v)
unfolding digit_loop divide_u64
digit_loop-NoMinus zero base v up lo hi = tt
digit_loop-NoMinus (suc room) base v up lo hi = elim (ℕ_discrete v 0) [
  | yes e ↦ rw (eq→== v 0 e) tt
  | no ne ↦ rw (ne→== v 0 ne) (
    digit_char-ne-minus up (v % base) (omega (arith, mod-lt v {m = base} (omega arith))),
    digit_loop-NoMinus room base (v / base) up lo hi,
  )
]

read_signed-NoMinus : (cs : List ℕ) → NoMinus cs → read_signed 10 cs ≡ pos (read_from 10 0 cs)
read_signed-NoMinus [] _ = refl
read_signed-NoMinus (c ∷ cs) (h, _) = rw (ne→== c b'-' h) refl

-- `%d` of a 32-bit `int`: reading the text gives the integer that the bits stand for, the most
-- negative one included, when no flags and no width are given.
pub read_signed-write_integer :
    (max_size value : ℕ)
    → 65 ≤ max_size
    → value < 2 ^ 32
    → read_signed 10 (write_integer max_size (pos 0) 31 10 0 value) ≡ signed32 value
unfolding is_neg magnitude
read_signed-write_integer m value room fits = elim (ℕ_discrete value 0) [
  | yes e ↦
      ap (λ (t : ℕ). read_signed 10 (write_integer m (pos 0) 31 10 0 t)) e
      ∙ ap (read_signed 10) (zero_text m 31 10 room)
      ∙ sym (ap signed32 e)
  | no ne ↦ ap (read_signed 10) (plain_text m 31 10 value ne (omega arith) room) ∙ digits ne
]
  where
    negative :
        2 ^ 31 ≤ value
        → read_signed 10
            (b'-' ∷ reverse (digit_loop 64 false 10 ((2 ^ 64 - value) % 2 ^ 64 % 2 ^ 32)))
          ≡ signed32 value
    negative h =
        let size : (2 ^ 64 - value) % 2 ^ 64 % 2 ^ 32 ≡ 2 ^ 32 - value = omega arith in
        rw
          (
            size,
            digit_loop-reads 64 10 (2 ^ 32 - value) false (omega arith) (omega arith) (omega arith),
          )
          (rw (le→ltb value (2 ^ 31) h) refl)

    small : value < 2 ^ 31 → pos value ≡ signed32 value
    small h = rw (lt→ltb value (2 ^ 31) h) refl

    positive :
        value < 2 ^ 31
        → read_signed 10 (reverse (digit_loop 64 false 10 (value % 2 ^ 32))) ≡ signed32 value
    positive h =
        let size : value % 2 ^ 32 ≡ value = omega arith in
        rw size (
          read_signed-NoMinus (reverse (digit_loop 64 false 10 value))
            (NoMinus-reverse _ (digit_loop-NoMinus 64 10 value false (omega arith) (omega arith)))
          ∙ ap pos (digit_loop-reads 64 10 value false (omega arith) (omega arith) (omega arith))
          ∙ small h)

    digits :
        value ≢ 0
        → read_signed 10 (
            (if is_neg 31 value then b'-' ∷ [] else [])
            ++ reverse (digit_loop 64 false 10 (magnitude 31 value)))
          ≡ signed32 value
    digits ne = elim (dec_lt value (2 ^ 31)) [
      | yes h ↦ let low : (value / 2 ^ 31 == 0) ≡ true = ground arith in rw low (positive h)
      | no h ↦
          let high : (value / 2 ^ 31 == 0) ≡ false = ground arith in
          rw high (negative (omega arith))
    ]
