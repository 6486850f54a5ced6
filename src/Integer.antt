-- ===== src/Integer.antt =====
-- common/strformat.c, TW_WriteInteger: the digits of an unsigned 64-bit value, with sign, prefix and
-- padding, cut off at `maxSize` bytes. The result is the list of the bytes written.
pub mod Digits
pub mod Layout
mod Examples
use libtwilight.Prelude.{
  ℕ, zero, suc, ◌+◌, ◌-◌, ◌*◌, ◌/◌, ◌%◌, ◌^◌, bit_and, Bool, true, false, not, ◌&&◌, ◌||◌, List, [],
  ◌∷◌, ◌++◌, ltb, leb, ◌==◌, if◌then◌else◌, length, replicate, reverse,
}
use libtwilight.Prelude.Int.{ℤ, pos_part}

-- `for (…; outPos < maxSize; …) outBuf[outPos++] = …` over the bytes to be written.
unfoldable pub emit : ℕ → List ℕ → List ℕ → List ℕ
emit max_size out [] = out
emit max_size out (c ∷ cs) =
    if ltb (length out) max_size then emit max_size (out ++ c ∷ []) cs else out

-- `TW_DivideU64`, as tests/testing_utils.c states it: the remainder, and the new `*value`.
pub divide_u64 : ℕ → ℕ → ℕ × ℕ
divide_u64 value base = (value % base, value / base)

-- `inc[rem >= 10] + (char)rem`.
pub digit_char : Bool → ℕ → ℕ
digit_char is_upper rem =
    if leb 10 rem then (0x57 - (if is_upper then 32 else 0) + rem) % 256 else (b'0' + rem) % 256

-- `while (value && pos < 64)`: the digits from the lowest on, `room` of them at most.
pub digit_loop : ℕ → Bool → ℕ → ℕ → List ℕ
unfolding divide_u64 digit_char
digit_loop zero is_upper base value = []
digit_loop (suc room) is_upper base value =
    let (rem, quotient) = divide_u64 value base in
    let rest = digit_loop room is_upper base quotient in
    if value == 0 then [] else digit_char is_upper rem ∷ rest

-- The value is negated, and counts as negative, if `bits` is odd and a bit from `bits` on is set.
pub is_neg : ℕ → ℕ → Bool
is_neg bits value = (bits % 2 == 1) && not (value / 2 ^ bits == 0)

-- `value` after the sign has been taken off and the mask `(1ull << bits) - 1ull` applied.
pub magnitude : ℕ → ℕ → ℕ
unfolding is_neg
magnitude bits value =
    let width = if bits % 2 == 1 then bits + 1 else bits in
    (if is_neg bits value then (2 ^ 64 - value) % 2 ^ 64 else value) % 2 ^ width

abbrev pub flag : ℕ → ℕ → Bool
flag flags mask = not (bit_and flags mask == 0)

abbrev pub one_if : Bool → ℕ
one_if b = if b then 1 else 0

unfoldable pub write_integer : ℕ → ℤ → ℕ → ℕ → ℕ → ℕ → List ℕ
unfolding emit digit_loop is_neg magnitude
write_integer max_size min_width bits base flags value =
    let is_upper = flag flags 1 in
    let zero_pad = flag flags 2 in
    let sign = flag flags 4 in
    let is_left = flag flags 8 in
    let is_alt = flag flags 16 in
    let neg = is_neg bits value in
    let width = pos_part min_width in
    let buf = digit_loop 64 is_upper base (magnitude bits value) in
    let space =
      length buf
      + one_if (neg || sign)
      + one_if (is_alt && (base == 16 || base == 8))
      + one_if (is_alt && base == 16) in
    let out0 =
      if ltb space width && not zero_pad && not is_left
      then emit max_size [] (replicate (width - space) b' ')
      else [] in
    let out1 =
      if neg || sign then emit max_size out0 ((if neg then b'-' else b'+') ∷ []) else out0 in
    let out2 =
      if is_alt && (base == 16 || base == 8) then emit max_size out1 (b'0' ∷ []) else out1 in
    let out3 =
      if is_alt && base == 16
      then emit max_size out2 ((if is_upper then b'X' else b'x') ∷ [])
      else out2 in
    let out4 =
      if zero_pad && not is_left
      then emit max_size out3 (replicate (width - space) b'0')
      else out3 in
    let out5 = emit max_size out4 (reverse buf) in
    let out6 =
      if ltb space width && is_left
      then emit max_size out5 (replicate (width - space) b' ')
      else out5 in
    if value == 0 || leb base 1
    then emit max_size [] (replicate (if ltb width 1 then 1 else width) b'0')
    else out6
