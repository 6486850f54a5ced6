-- ===== src/Format/Modifiers.antt =====
-- The length modifiers `h` and `l` have no effect: each ends its round by `continue`, so that `prev`
-- never holds one, and the conversion byte behind them sets the width to 32 bits.
use libtwilight.Prelude.{ℕ, ◌≡◌, ◌≢◌, refl, sym, ◌∙◌, List, [], ◌∷◌, ne→==}
use libtwilight.Prelude.Int.{ℤ}
use libtwilight.Format.{
  Sink, State, proceed, literal, flags, width, length_modifier, length_bits, flag_of, remember,
}
use libtwilight.Format.Run.{run-proceed, run-same, at_width-other}
use libtwilight.Format.Machine.{
  run, step, in_conversion, at_percent, at_flags, at_point, at_length, is_literal,
}

pub data Modifier : Type 0 where
  short long : Modifier

abbrev pub modifier_byte : Modifier → ℕ
modifier_byte short = b'h'
modifier_byte long = b'l'

pub data IntegerConversion : Type 0 where
  conv_d conv_i conv_o conv_u conv_x conv_upper_x : IntegerConversion

abbrev pub conversion_byte : IntegerConversion → ℕ
conversion_byte conv_d = b'd'
conversion_byte conv_i = b'i'
conversion_byte conv_o = b'o'
conversion_byte conv_u = b'u'
conversion_byte conv_x = b'x'
conversion_byte conv_upper_x = b'X'

abbrev pub modifiers : List Modifier → List ℕ → List ℕ
modifiers [] rest = rest
modifiers (m ∷ ms) rest = modifier_byte m ∷ modifiers ms rest

module _ {O : Type 0} (sink : Sink O) (write_double : ℕ → ℤ → ℤ → ℕ → ℕ → List ℕ) where
  -- The state behind `%`, and the one behind a modifier.
  abbrev opened : State O → State O
  opened s = record s { mode = flags; prev = b'%' }

  abbrev modified : ℕ → State O → State O
  modified bits s = record s { mode = length_modifier; format_bits = bits; prev = b'%' }

  abbrev widthed : State O → State O
  widthed s = record s { mode = width; prev = b'%' }

  step-percent :
      (s : State O)
      → s.mode ≡ literal
      → s.prev ≢ b'\\'
      → step sink write_double b'%' s ≡ proceed (opened s)
  unfolding step at_percent is_literal remember
  step-percent s e h = rw e (rw (ne→== s.prev b'\\' h) refl)

  -- The conversion byte does the same behind modifiers as right behind `%`.
  step_conversion :
      (c : IntegerConversion) (bits : ℕ) (s : State O)
      → step sink write_double (conversion_byte c) (modified bits s)
        ≡ step sink write_double (conversion_byte c) (opened s)
  unfolding step in_conversion at_flags at_point at_length length_bits flag_of
  step_conversion conv_d bits s = sym (at_width-other sink write_double b'd' (widthed s) refl refl)
  step_conversion conv_i bits s = sym (at_width-other sink write_double b'i' (widthed s) refl refl)
  step_conversion conv_o bits s = sym (at_width-other sink write_double b'o' (widthed s) refl refl)
  step_conversion conv_u bits s = sym (at_width-other sink write_double b'u' (widthed s) refl refl)
  step_conversion conv_x bits s = sym (at_width-other sink write_double b'x' (widthed s) refl refl)
  step_conversion conv_upper_x bits s =
      sym (at_width-other sink write_double b'X' (widthed s) refl refl)

  abbrev bits_of : Modifier → ℕ
  bits_of short = 16
  bits_of long = 32

  -- The first modifier, and a later one.
  step_first :
      (m : Modifier) (s : State O)
      → step sink write_double (modifier_byte m) (opened s) ≡ proceed (modified (bits_of m) s)
  unfolding step in_conversion at_flags at_point at_length length_bits flag_of
  step_first short s = at_width-other sink write_double b'h' (widthed s) refl refl
  step_first long s = at_width-other sink write_double b'l' (widthed s) refl refl

  step_later :
      (m : Modifier) (bits : ℕ) (s : State O)
      → step sink write_double (modifier_byte m) (modified bits s)
        ≡ proceed (modified (bits_of m) s)
  unfolding step in_conversion at_length length_bits
  step_later short bits s = refl
  step_later long bits s = refl

  run_later :
      (ms : List Modifier) (c : IntegerConversion) (rest : List ℕ) (bits : ℕ) (s : State O)
      → run sink write_double (modifiers ms (conversion_byte c ∷ rest)) (modified bits s)
        ≡ run sink write_double (conversion_byte c ∷ rest) (opened s)
  run_later [] c rest bits s = run-same sink write_double _ rest _ _ (step_conversion c bits s)
  run_later (m ∷ ms) c rest bits s =
      run-proceed sink write_double _ _ _ (step_later m bits s) ∙ run_later ms c rest (bits_of m) s

  run-opened :
      (ms : List Modifier) (c : IntegerConversion) (rest : List ℕ) (s : State O)
      → run sink write_double (modifiers ms (conversion_byte c ∷ rest)) (opened s)
        ≡ run sink write_double (conversion_byte c ∷ rest) (opened s)
  run-opened [] c rest s = refl
  run-opened (m ∷ ms) c rest s =
      run-proceed sink write_double _ _ _ (step_first m s) ∙ run_later ms c rest (bits_of m) s

  -- Whatever `h` and `l` stand before `d i o u x X`, TW_FormatStringV goes on exactly as without
  -- them: `%lld` and `%llu` read 32 bits, `%hd` prints all 32, from every state outside a conversion
  -- whose last byte is no backslash.
  pub run-modifiers :
      (ms : List Modifier) (c : IntegerConversion) (rest : List ℕ) (s : State O)
      → s.mode ≡ literal
      → s.prev ≢ b'\\'
      → run sink write_double (b'%' ∷ modifiers ms (conversion_byte c ∷ rest)) s
        ≡ run sink write_double (b'%' ∷ conversion_byte c ∷ rest) s
  run-modifiers ms c rest s e h =
      run-proceed sink write_double _ _ s (step-percent s e h)
      ∙ run-opened ms c rest s
      ∙ sym (run-proceed sink write_double _ _ s (step-percent s e h))
