-- ===== src/Serial/Description.antt =====
-- ppc/serial.c, TW_RequestSerialBuffer and TW_IdentifySerialController: the bytes read from the buffer.
use libtwilight.Prelude.{
  ℕ, zero, suc, ◌+◌, ◌-◌, ◌*◌, ◌/◌, ◌%◌, ◌^◌, ◌<◌, ◌≤◌, ◌≡◌, ◌≢◌, ◌⊎◌, inl, inr, refl, ap, sym, ◌∙◌,
  arith, bit_and, bit_or, true, false, not, List, [], ◌∷◌, length, ltb, ltb→lt, lt→ltb, length-set,
  ◌==◌, if◌then◌else◌, leb, ◌&&◌, Bool-cases, get_or, set, replicate, eq→==, ne→==,
}
use libtwilight.Prelude.Bits.{bit_and_mask, bit_or_concat}
use libtwilight.Serial.{
  Registers, store_word, buffer_loop, request_serial_buffer, identify_serial_controller,
}

-- Byte `j` of the buffer at 0x80, which is made of words with the highest byte first.
pub buffer_byte : Registers → ℕ → ℕ
buffer_byte s j = s (0x80 + (j - j % 4)) / 2 ^ (24 - 8 * (j % 4)) % 256

get_or-set :
    (xs : List ℕ) (i j v : ℕ)
    → i < length xs
    → get_or (set xs i v) j 0 ≡ (if j == i then v else get_or xs j 0)
get_or-set [] i j v h = absurd (omega arith)
get_or-set (x ∷ xs) zero zero v h = refl
get_or-set (x ∷ xs) zero (suc j) v h = rw (ne→== (suc j) 0 (λ e. absurd (omega arith))) refl
get_or-set (x ∷ xs) (suc i) zero v h = rw (ne→== 0 (suc i) (λ e. absurd (omega arith))) refl
get_or-set (x ∷ xs) (suc i) (suc j) v h = elim (Bool-cases (j == i)) [
  | inl e ↦
      rw (eq→== (suc j) (suc i) (ground arith)) (get_or-set xs i j v (omega arith) ∙ rw e refl)
  | inr e ↦
      rw (ne→== (suc j) (suc i) (λ f. absurd (ground arith)))
        (get_or-set xs i j v (omega arith) ∙ rw e refl)
]

get_or-set_here : (xs : List ℕ) (i v : ℕ) → i < length xs → get_or (set xs i v) i 0 ≡ v
get_or-set_here xs i v h = get_or-set xs i i v h ∙ rw (eq→== i i refl) refl

get_or-set_other :
    (xs : List ℕ) (i j v : ℕ) → i < length xs → j ≢ i → get_or (set xs i v) j 0 ≡ get_or xs j 0
get_or-set_other xs i j v h e = get_or-set xs i j v h ∙ rw (ne→== j i e) refl

-- A byte that a round stores if it is below `outputLen`.
stored : List ℕ → ℕ → ℕ → ℕ → List ℕ
stored xs i len v = if ltb i len then set xs i v else xs

stored_here :
    (xs : List ℕ) (i len v : ℕ) → len ≤ length xs → i < len → get_or (stored xs i len v) i 0 ≡ v
unfolding stored
stored_here xs i len v h l = rw (lt→ltb i len l) (get_or-set_here xs i v (omega arith))

stored_other :
    (xs : List ℕ) (i len v j : ℕ)
    → len ≤ length xs
    → j ≢ i
    → get_or (stored xs i len v) j 0 ≡ get_or xs j 0
unfolding stored
stored_other xs i len v j h e = elim (Bool-cases (ltb i len)) [
  | inl b ↦ rw b (get_or-set_other xs i j v (omega (arith, ltb→lt i len b)) e)
  | inr b ↦ rw b refl
]

stored_behind :
    (xs : List ℕ) (i len v j : ℕ)
    → len ≤ length xs
    → len ≤ j
    → get_or (stored xs i len v) j 0 ≡ get_or xs j 0
unfolding stored
stored_behind xs i len v j h l = elim (Bool-cases (ltb i len)) [
  | inl b ↦ rw b (
      get_or-set_other xs i j v (omega (arith, ltb→lt i len b))
        (λ e. absurd (omega (arith, ltb→lt i len b))))
  | inr b ↦ rw b refl
]

length-stored : (xs : List ℕ) (i len v : ℕ) → length (stored xs i len v) ≡ length xs
unfolding stored
length-stored xs i len v = elim (Bool-cases (ltb i len)) [
  | inl b ↦ rw b (length-set xs i v)
  | inr b ↦ rw b refl
]

module _ (word i len : ℕ) (xs : List ℕ) (room : len ≤ length xs) (here : i < len) where
  abbrev one : List ℕ
  one = stored xs i len (word / 2 ^ 24 % 256)

  abbrev two : List ℕ
  two = stored one (i + 1) len (word / 2 ^ 16 % 256)

  abbrev three : List ℕ
  three = stored two (i + 2) len (word / 2 ^ 8 % 256)

  store_word_stored : store_word word i len xs ≡ stored three (i + 3) len (word % 256)
  unfolding store_word stored
  store_word_stored = rw (lt→ltb i len here) refl

  length-store_word : length (store_word word i len xs) ≡ length xs
  length-store_word =
      ap length store_word_stored
      ∙ length-stored three (i + 3) len _
      ∙ length-stored two (i + 2) len _
      ∙ length-stored one (i + 1) len _
      ∙ length-stored xs i len _

  rooms : (len ≤ length one) × (len ≤ length two) × (len ≤ length three)
  rooms =
      let a = length-stored xs i len (word / 2 ^ 24 % 256) in
      let b = length-stored one (i + 1) len (word / 2 ^ 16 % 256) in
      let c = length-stored two (i + 2) len (word / 2 ^ 8 % 256) in
      (omega arith, omega arith, omega arith)

  store_word_other :
      (j : ℕ) → (j < i) ⊎ (i + 4 ≤ j) → get_or (store_word word i len xs) j 0 ≡ get_or xs j 0
  store_word_other j away =
      let (a, b, c) = rooms in
      let not_here : (k : ℕ) → k < 4 → j ≢ i + k =
        λ k l e. elim away [ inl low ↦ absurd (omega arith) | inr high ↦ absurd (omega arith) ] in
      ap (λ t. get_or t j 0) store_word_stored
      ∙ stored_other three (i + 3) len (word % 256) j c (not_here 3 (omega arith))
      ∙ stored_other two (i + 2) len (word / 2 ^ 8 % 256) j b (not_here 2 (omega arith))
      ∙ stored_other one (i + 1) len (word / 2 ^ 16 % 256) j a (not_here 1 (omega arith))
      ∙ stored_other xs i len (word / 2 ^ 24 % 256) j room
          (λ e. not_here 0 (omega arith) (omega arith))

  store_word_behind : (j : ℕ) → len ≤ j → get_or (store_word word i len xs) j 0 ≡ get_or xs j 0
  store_word_behind j behind =
      let (a, b, c) = rooms in
      ap (λ t. get_or t j 0) store_word_stored
      ∙ stored_behind three (i + 3) len (word % 256) j c behind
      ∙ stored_behind two (i + 2) len (word / 2 ^ 8 % 256) j b behind
      ∙ stored_behind one (i + 1) len (word / 2 ^ 16 % 256) j a behind
      ∙ stored_behind xs i len (word / 2 ^ 24 % 256) j room behind

  third_here : i + 2 < len → get_or (store_word word i len xs) (i + 2) 0 ≡ word / 2 ^ 8 % 256
  third_here inside =
      let (a, b, c) = rooms in
      ap (λ t. get_or t (i + 2) 0) store_word_stored
      ∙ stored_other three (i + 3) len (word % 256) (i + 2) c (λ e. absurd (omega arith))
      ∙ stored_here two (i + 2) len (word / 2 ^ 8 % 256) b inside

  second_here : i + 1 < len → get_or (store_word word i len xs) (i + 1) 0 ≡ word / 2 ^ 16 % 256
  second_here inside =
      let (a, b, c) = rooms in
      ap (λ t. get_or t (i + 1) 0) store_word_stored
      ∙ stored_other three (i + 3) len (word % 256) (i + 1) c (λ e. absurd (omega arith))
      ∙ stored_other two (i + 2) len (word / 2 ^ 8 % 256) (i + 1) b (λ e. absurd (omega arith))
      ∙ stored_here one (i + 1) len (word / 2 ^ 16 % 256) a inside

  first_here : get_or (store_word word i len xs) i 0 ≡ word / 2 ^ 24 % 256
  first_here =
      let (a, b, c) = rooms in
      ap (λ t. get_or t i 0) store_word_stored
      ∙ stored_other three (i + 3) len (word % 256) i c (λ e. absurd (omega arith))
      ∙ stored_other two (i + 2) len (word / 2 ^ 8 % 256) i b (λ e. absurd (omega arith))
      ∙ stored_other one (i + 1) len (word / 2 ^ 16 % 256) i a (λ e. absurd (omega arith))
      ∙ stored_here xs i len (word / 2 ^ 24 % 256) room here

  store_word_here :
      (k : ℕ)
      → k < 4
      → i + k < len
      → get_or (store_word word i len xs) (i + k) 0 ≡ word / 2 ^ (24 - 8 * k) % 256
  store_word_here zero small inside = let e : i + zero ≡ i = omega arith in rw e first_here
  store_word_here (suc zero) small inside = second_here inside
  store_word_here (suc (suc zero)) small inside = third_here inside
  store_word_here (suc (suc (suc zero))) small inside =
      ap (λ t. get_or t (i + 3) 0) store_word_stored
      ∙ stored_here three (i + 3) len (word % 256) rooms.2 inside
      ∙ omega arith
  store_word_here (suc (suc (suc (suc k)))) small inside = absurd (omega arith)

-- The bytes of one round.
round_byte :
    (s : Registers) (i len : ℕ) (xs : List ℕ) (j : ℕ)
    → len ≤ length xs
    → i % 4 ≡ 0
    → i ≤ j
    → j < i + 4
    → j < len
    → get_or (store_word (s (0x80 + i)) i len xs) j 0 ≡ buffer_byte s j
unfolding buffer_byte
round_byte s i len xs j room start low high inside =
    let whole : i + (j - i) ≡ j = omega arith in
    let place : j % 4 ≡ j - i = omega arith in
    let base : j - (j - i) ≡ i = omega arith in
    ap (λ t. get_or (store_word (s (0x80 + i)) i len xs) t 0) (sym whole)
    ∙ store_word_here (s (0x80 + i)) i len xs room (omega arith) (j - i) (omega arith) (omega arith)
    ∙ rw (place, base) refl

-- The loop from a multiple of four on, with fuel for the bytes left.
buffer_loop-at :
    (fuel i len : ℕ) (s : Registers) (xs : List ℕ) (j : ℕ)
    → len ≤ length xs
    → i % 4 ≡ 0
    → len ≤ i + 4 * fuel
    → get_or (buffer_loop fuel i len s xs) j 0
      ≡ (if leb i j && ltb j len then buffer_byte s j else get_or xs j 0)
unfolding buffer_loop
buffer_loop-at zero i len s xs j room start fuel_left =
    let none : (leb i j && ltb j len) ≡ false = ground arith in rw none refl
buffer_loop-at (suc fuel) i len s xs j room start fuel_left = elim (Bool-cases (ltb i len)) [
  | inr b ↦ let none : (leb i j && ltb j len) ≡ false = ground arith in rw (b, none) refl
  | inl b ↦
      let here = ltb→lt i len b in
      let word = s (0x80 + i) in
      let same_length = length-store_word word i len xs room here in
      let later =
        buffer_loop-at fuel (i + 4) len s (store_word word i len xs) j (omega (arith, same_length))
          (omega arith) (omega arith) in
      rw b (
        later ∙ elim (Bool-cases (ltb j len)) [
          | inr behind ↦
              let none : (leb (i + 4) j && ltb j len) ≡ false = ground arith in
              let none' : (leb i j && ltb j len) ≡ false = ground arith in
              rw (none, none') (store_word_behind word i len xs room here j (ground arith))
          | inl inside ↦ elim (Bool-cases (ltb j i)) [
            | inl below ↦
                let none : leb (i + 4) j ≡ false = ground arith in
                let none' : leb i j ≡ false = ground arith in
                rw (none, none')
                  (store_word_other word i len xs room here j (inl (ltb→lt j i below)))
            | inr above ↦
                let all : leb i j ≡ true = ground arith in
                elim (Bool-cases (leb (i + 4) j)) [
                  | inl next ↦ rw (next, all, inside) refl
                  | inr now ↦
                      rw (now, all, inside)
                        (round_byte s i len xs j room start (ground arith) (ground arith)
                          (ltb→lt j len inside))
                ]
          ]
        ])
]

-- `TW_RequestSerialBuffer` with an array of at least `outputLen` bytes: the first `outputLen` bytes of the array become
-- those of the interface's buffer, whose words hold the first byte highest, and the bytes behind them are left alone.
pub get_or-request_serial_buffer :
    (port output_len j : ℕ) (input output : List ℕ) (s : Registers)
    → output_len ≤ length output
    → get_or (request_serial_buffer port input output_len s output) j 0
      ≡ (if ltb j output_len then buffer_byte s j else get_or output j 0)
unfolding request_serial_buffer
get_or-request_serial_buffer port output_len j input output s room =
    let all : leb 0 j ≡ true = ground arith in
    buffer_loop-at output_len 0 output_len s output j room refl (omega arith) ∙ rw all refl

first_bytes :
    (s : Registers)
    → (buffer_byte s 0 ≡ s 0x80 / 2 ^ 24 % 256)
      × (buffer_byte s 1 ≡ s 0x80 / 2 ^ 16 % 256)
      × (buffer_byte s 2 ≡ s 0x80 / 2 ^ 8 % 256)
unfolding buffer_byte
first_bytes s = (refl, refl, refl)

-- `TW_IdentifySerialController` returns the upper half of the first word of the buffer, and whether its third byte is
-- not 0, whatever the port.
identify_serial_controller-upper :
    (port : ℕ) (s : Registers)
    → s 0x80 < 2 ^ 32
    → identify_serial_controller port s ≡ (s 0x80 / 2 ^ 16, not (s 0x80 / 2 ^ 8 % 256 == 0))
unfolding identify_serial_controller
identify_serial_controller-upper port s small =
    let byte : (j : ℕ)
        → j < 3
        → get_or (request_serial_buffer port (replicate 4 0) 3 s (replicate 4 0)) j 0
          ≡ buffer_byte s j =
      λ j inside.
        get_or-request_serial_buffer port 3 j (replicate 4 0) (replicate 4 0) s (omega arith)
        ∙ rw (lt→ltb j 3 inside) refl in
    let (zeroth, first, second) = first_bytes s in
    let upper = s 0x80 / 2 ^ 24 % 256 in
    let lower = s 0x80 / 2 ^ 16 % 256 in
    let masked : (x : ℕ) → bit_and (x % 256) 0xff ≡ x % 256 =
      λ x. bit_and_mask 8 (x % 256) ∙ omega arith in
    let joined : bit_or (upper * 2 ^ 8) lower ≡ s 0x80 / 2 ^ 16 =
      bit_or_concat 8 upper lower (omega arith) ∙ omega arith in
    rw
      (
        byte 0 (omega arith),
        byte 1 (omega arith),
        byte 2 (omega arith),
        zeroth,
        first,
        second,
        masked (s 0x80 / 2 ^ 24),
        masked (s 0x80 / 2 ^ 16),
        joined,
      )
      refl
