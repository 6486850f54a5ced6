-- ===== src/Format/Machine.antt =====
-- One round of the loop of TW_FormatStringV, and the loop, over any sink. `write_double` stands for
-- TW_WriteDouble: the size of its buffer, the width, the precision, the mode and the bits of the value.
use libtwilight.Prelude.{
  ℕ, ◌-◌, ◌%◌, ◌^◌, bit_or, Bool, true, false, not, ◌&&◌, ◌||◌, List, [], ◌∷◌, ◌++◌, Option, none,
  some, ◌==◌, if◌then◌else◌, codes,
}
use libtwilight.Prelude.Int.{ℤ, pos, negsuc, is_negative}
use libtwilight.Integer.{write_integer}
use libtwilight.Format.{
  Arg, word, real, text, cell, Mode, literal, flags, width, point, precision, length_modifier,
  conversion, Sink, State, Turn, proceed, stop, fault, numeric_buffer, is_digit, push_digit,
  length_bits, flag_of, signed_flags, unsigned_flags, take_integer, take_star, Kind, floating,
  character, decimal, bytes_so_far, pointer, string, nothing, unsigned_in, kind_of, float_precision,
  reset, remember,
}

unfoldable pub next_real : List Arg → Option (ℕ × List Arg)
next_real (real v ∷ args) = some (v, args)
next_real _ = none

unfoldable pub next_word : List Arg → Option (ℕ × List Arg)
next_word (word v ∷ args) = some (v, args)
next_word _ = none

unfoldable pub next_text : List Arg → Option (Option (List ℕ) × List Arg)
next_text (text v ∷ args) = some (v, args)
next_text _ = none

unfoldable pub next_cell : List Arg → Option (List Arg)
next_cell (cell ∷ args) = some args
next_cell _ = none

unfoldable pub is_literal : Mode → Bool
is_literal literal = true
is_literal _ = false

module _ {O : Type 0} where
  -- What follows a `va_arg`.
  abbrev pub with_arg {ℓ} : {A : Type ℓ} → Option A → (A → Turn O) → Turn O
  with_arg none k = fault
  with_arg (some a) k = k a

module _ {O : Type 0} (sink : Sink O) (write_double : ℕ → ℤ → ℤ → ℕ → ℕ → List ℕ) where
  -- `%s`: the bytes of the string, up to the first that the limit refuses.
  unfoldable pub put_string : List ℕ → O → O
  put_string [] o = o
  put_string (ch ∷ cs) o =
      let (o', more) = sink.put ch o in let rest = put_string cs o' in if more then rest else o'

  -- The numeric bytes go to the buffer, and the conversion is over.
  unfoldable pub finish : ℕ → List ℕ → List Arg → State O → Turn O
  finish c bytes args s =
      proceed (remember c (reset (record s { out = sink.append bytes s.out; args = args })))

  unfoldable pub perform : Kind → ℕ → State O → Turn O
  perform (floating mode) c s = with_arg (next_real s.args) λ (v, args).
      finish c (write_double numeric_buffer s.min_width (float_precision c s.fmt_precision) mode v)
        args s
  perform character c s = with_arg (next_word s.args) λ (v, args). finish c (v % 2 ^ 8 ∷ []) args s
  perform decimal c s = with_arg (take_integer s.format_bits s.args) λ (v, args).
      finish c
        (write_integer numeric_buffer s.min_width (s.format_bits - 1) 10
          (signed_flags s.format_flags) v)
        args s
  perform bytes_so_far c s =
      with_arg (next_cell s.args)
        λ args. finish c [] args (record s { stored = s.stored ++ sink.count s.out ∷ [] })
  perform (unsigned_in base) c s = with_arg (take_integer s.format_bits s.args) λ (v, args).
      finish c
        (write_integer numeric_buffer s.min_width s.format_bits base
          (unsigned_flags s.format_flags c) v)
        args s
  perform pointer c s = with_arg (next_word s.args) λ (v, args).
      finish c
        (if v == 0
          then codes "(null)"
          else b'0' ∷ b'x' ∷ write_integer numeric_buffer s.min_width 32 16 0 v)
        args s
  perform string c s = with_arg (next_text s.args) λ (v, args). elim v [
    | none ↦ finish c (codes "(null)") args s
    | some cs ↦ finish c [] args (record s { out = put_string cs s.out })
  ]
  perform nothing c s = finish c [] s.args s

  -- Mode 6: the arguments for `*`, then the conversion.
  unfoldable pub convert : ℕ → State O → Turn O
  convert c s = with_arg (take_star s.min_width s.args) λ (w, args).
      with_arg (take_star s.fmt_precision args) λ (p, args').
        perform (kind_of c) c (record s { min_width = w; fmt_precision = p; args = args' })

  -- Modes 5 to 1, each of which falls through to the next when the byte is not its own. A byte that
  -- is its own ends the round by `continue`, which skips `prev = c`.
  unfoldable pub at_length : ℕ → State O → Turn O
  at_length c s =
      let (bits, ready) = length_bits c s.prev in
      if ready
      then convert c (record s { mode = conversion; format_bits = bits })
      else proceed (record s { mode = length_modifier; format_bits = bits })

  unfoldable pub at_precision : ℕ → State O → Turn O
  at_precision c s =
      if not (is_negative s.fmt_precision) && is_digit c
      then proceed (record s { fmt_precision = push_digit s.fmt_precision c })
      else if c == b'*'
      then proceed (record s { fmt_precision = negsuc 0 })
      else at_length c (record s { mode = length_modifier })

  unfoldable pub at_point : ℕ → State O → Turn O
  at_point c s =
      if c == b'.'
      then proceed (record s { mode = precision })
      else at_length c (record s { mode = length_modifier })

  unfoldable pub at_width : ℕ → State O → Turn O
  at_width c s =
      if not (is_negative s.min_width) && is_digit c
      then proceed (record s { min_width = push_digit s.min_width c })
      else if c == b'*'
      then proceed (record s { min_width = negsuc 0 })
      else at_point c (record s { mode = point })

  unfoldable pub at_flags : ℕ → State O → Turn O
  at_flags c s = elim (flag_of c) [
    | some f ↦ proceed (record s { format_flags = bit_or s.format_flags f })
    | none ↦ at_width c (record s { mode = width })
  ]

  -- A byte that stands for itself.
  unfoldable pub put_literal : ℕ → State O → Turn O
  put_literal c s =
      let (o, more) = sink.put c s.out in
      if more then proceed (remember c (record s { out = o })) else stop (record s { out = o })

  -- Inside a conversion, by `format_mode`; `at_percent` is the byte `%`.
  unfoldable pub in_conversion : Mode → ℕ → State O → Turn O
  in_conversion literal c s = put_literal c s
  in_conversion flags c s = at_flags c s
  in_conversion width c s = at_width c s
  in_conversion point c s = at_point c s
  in_conversion precision c s = at_precision c s
  in_conversion length_modifier c s = at_length c s
  in_conversion conversion c s = convert c s

  unfoldable pub at_percent : State O → Turn O
  at_percent s =
      if not (is_literal s.mode) || s.prev == b'\\'
      then (let (o, more) = sink.put b'%' s.out in
          if more
          then proceed (remember b'%' (reset (record s { out = o })))
          else stop (record s { out = o }))
      else proceed (remember b'%' (record s { mode = flags }))

  -- One round of `for (int i = 0; str[i]; i++)`.
  unfoldable pub step : ℕ → State O → Turn O
  step c s = if c == b'%' then at_percent s else in_conversion s.mode c s

  -- The loop; `none` is a `va_arg` that finds no argument of its type.
  unfoldable pub run : List ℕ → State O → Option (State O)
  run [] s = some s
  run (c ∷ cs) s = elim (step c s) [ proceed s' ↦ run cs s' | stop s' ↦ some s' | fault ↦ none ]

-- The state before the loop.
unfoldable pub initial : {O : Type 0} → O → List Arg → State O
initial o args = record {
  out = o;
  mode = literal;
  format_flags = 0;
  format_bits = 0;
  min_width = pos 0;
  fmt_precision = pos 0;
  prev = 0;
  args = args;
  stored = [];
}
