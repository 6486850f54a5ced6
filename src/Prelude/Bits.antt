-- ===== src/Prelude/Bits.antt =====
-- Words bit by bit: single bits, and masks.
mod Words
mod Masks
pub use Words.{
  one_le_two_pow, bit_at, complement, bit_at-lt, bit_at-bit_or, bit_at-bit_and, bit_or-lt,
  bit_and-lt, eq_of_bits, bit_at-zero, bit_at-pow_self, bit_at-pow_ne, bit_at-complement,
  complement-lt, leading_zeros-zero, leading_zeros-highest, pow_lt_pow,
}
unfoldable pub use Words.{leading_zeros}
pub use Masks.{halve_mod, bit_and_zero, bit_and_mask, bit_and_high, bit_and_align, bit_or_concat}
