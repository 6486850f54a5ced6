-- ===== src/Format.antt =====
-- common/strformat.c, TW_FormatStringV: the format string as a machine over its bytes. The machine is
-- written over a sink, the operations that put bytes into the 512-byte buffer; `Format.Buffer` has
-- that buffer, and `Format.Refine` compares it with a sink that only appends.
pub mod Machine
pub mod Run
pub mod Buffer
pub mod Simulate
pub mod Refine
pub mod Whole
pub mod Literal
pub mod Modifiers
pub mod Real
mod Examples
use libtwilight.Prelude.{
  ℕ, zero, suc, ◌+◌, ◌-◌, ◌*◌, ◌/◌, ◌%◌, ◌^◌, bit_and, bit_or, Bool, true, false, not, ◌&&◌, ◌||◌,
  List, [], ◌∷◌, ◌++◌, Option, none, some, ltb, leb, ◌==◌, if◌then◌else◌, codes,
}
use libtwilight.Prelude.Int.{ℤ, pos, negsuc, pos_part, is_negative, is_minus_one, signed32}
use libtwilight.Integer.{write_integer, one_if}

-- One argument of the `va_list`, by what it was passed as: 32 bits (`int`, `unsigned`, `void*`), 64
-- bits, a `double` as its bits, a `char*` (`none` is the null pointer), an `int*`.
pub data Arg : Type 0 where
  word : ℕ → Arg
  wide : ℕ → Arg
  real : ℕ → Arg
  text : Option (List ℕ) → Arg
  cell : Arg

-- `format_mode`, 0 to 6 in this order.
pub data Mode : Type 0 where
  literal flags width point precision length_modifier conversion : Mode

-- What the machine does with its output: one byte under the limit `maxOutputSize` (the Boolean is
-- false where the loop has to stop), bytes with no limit, and the count that `%n` stores.
pub record Sink (O : Type 0) : Type 0 where
  pub put : ℕ → O → O × Bool
  pub append : List ℕ → O → O
  pub count : O → ℕ

-- The variables of the loop; `stored` is what `%n` wrote, in order.
pub record State (O : Type 0) : Type 0 where
  pub out : O
  pub mode : Mode
  pub format_flags : ℕ
  pub format_bits : ℕ
  pub min_width : ℤ
  pub fmt_precision : ℤ
  pub prev : ℕ
  pub args : List Arg
  pub stored : List ℕ

-- The end of a round: on to the next byte, out of the loop, or undefined behaviour of `va_arg`.
pub data Turn (O : Type 0) : Type 0 where
  proceed : State O → Turn O
  stop : State O → Turn O
  fault : Turn O

abbrev pub numeric_buffer : ℕ
numeric_buffer = 1536

abbrev pub is_digit : ℕ → Bool
is_digit c = leb b'0' c && leb c b'9'

-- The decimal digit `c` behind a number, which is not negative.
abbrev pub push_digit : ℤ → ℕ → ℤ
push_digit n c = pos (pos_part n * 10 + (c - b'0'))

-- Mode 5: the bits that the byte selects, and whether the mode becomes 6.
pub length_bits : ℕ → ℕ → ℕ × Bool
length_bits c prev =
    if c == b'h'
    then (if prev == b'h' then (8, true) else (16, false))
    else if c == b'j'
    then (64, true)
    else if c == b'l'
    then (if prev == b'l' then (64, true) else (32, false))
    else if c == b'L'
    then (64, true)
    else (32, true)

-- The flag that a byte sets in mode 1.
pub flag_of : ℕ → Option ℕ
flag_of c =
    if c == b'-'
    then some 1
    else if c == b'+'
    then some 2
    else if c == b' '
    then some 4
    else if c == b'#'
    then some 8
    else if c == b'0'
    then some 16
    else none

-- The `flags` argument of `TW_WriteInteger`.
pub signed_flags : ℕ → ℕ
signed_flags f = bit_or (bit_or (bit_and f 1 * 2 ^ 3) (bit_and f 2 * 2 ^ 1)) (bit_and f 16 / 2 ^ 3)

pub unsigned_flags : ℕ → ℕ → ℕ
unsigned_flags f c =
    bit_or
      (bit_or (bit_or (bit_or (bit_and f 8 * 2 ^ 1) (bit_and f 1 * 2 ^ 3)) (bit_and f 2 * 2 ^ 1))
        (bit_and f 16 / 2 ^ 3))
      (one_if (c == b'X'))

-- An integer argument, by `format_bits`.
pub take_integer : ℕ → List Arg → Option (ℕ × List Arg)
take_integer bits [] = none
take_integer bits (word v ∷ args) =
    if bits == 8
    then some (v % 2 ^ 8, args)
    else if bits == 16
    then some (v % 2 ^ 16, args)
    else if bits == 32
    then some (v % 2 ^ 32, args)
    else none
take_integer bits (wide v ∷ args) =
    if (bits == 8 || bits == 16) || bits == 32 then none else some (v, args)
take_integer bits (real v ∷ args) = none
take_integer bits (text v ∷ args) = none
take_integer bits (cell ∷ args) = none

-- `*`: the width or the precision is the next `int`.
pub take_star : ℤ → List Arg → Option (ℤ × List Arg)
take_star n [] = if is_minus_one n then none else some (n, [])
take_star n (word v ∷ args) =
    if is_minus_one n then some (signed32 v, args) else some (n, word v ∷ args)
take_star n (wide v ∷ args) = if is_minus_one n then none else some (n, wide v ∷ args)
take_star n (real v ∷ args) = if is_minus_one n then none else some (n, real v ∷ args)
take_star n (text v ∷ args) = if is_minus_one n then none else some (n, text v ∷ args)
take_star n (cell ∷ args) = if is_minus_one n then none else some (n, cell ∷ args)

-- What a conversion byte asks for.
pub data Kind : Type 0 where
  floating : ℕ → Kind
  character decimal bytes_so_far pointer string nothing : Kind
  unsigned_in : ℕ → Kind

pub kind_of : ℕ → Kind
kind_of c =
    if c == b'a' || c == b'A'
    then floating 1
    else if c == b'c'
    then character
    else if c == b'd' || c == b'i'
    then decimal
    else if c == b'e' || c == b'E'
    then floating 2
    else if c == b'f' || c == b'F'
    then floating 1
    else if c == b'g' || c == b'G'
    then floating 0
    else if c == b'n'
    then bytes_so_far
    else if c == b'o'
    then unsigned_in 8
    else if c == b'u'
    then unsigned_in 10
    else if c == b'x' || c == b'X'
    then unsigned_in 16
    else if c == b'p'
    then pointer
    else if c == b's'
    then string
    else nothing

-- Only `%f` and `%F` turn a precision of 0 into 6.
pub float_precision : ℕ → ℤ → ℤ
float_precision c (pos n) = if (c == b'f' || c == b'F') && n == 0 then pos 6 else pos n
float_precision c (negsuc n) = negsuc n

module _ {O : Type 0} where
  -- `format_mode = 0; format_flags = 0; fmt_min_width = 0; fmt_precision = 0;`
  pub reset : State O → State O
  reset s = record s { mode = literal; format_flags = 0; min_width = pos 0; fmt_precision = pos 0 }

  -- `prev = c`, the last statement of the loop's body.
  pub remember : ℕ → State O → State O
  remember c s = record s { prev = c }
