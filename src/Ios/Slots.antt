-- ===== src/Ios/Slots.antt =====
-- ppc/wii/ios.c, ALIGNED_IOS_BUFFER: where the 32 buffers lie.
use libtwilight.Prelude.{ℕ, ◌+◌, ◌*◌, ◌/◌, ◌%◌, ◌^◌, bit_and, ◌<◌, ◌≤◌, ◌≡◌, ap, ◌∙◌, arith}
use libtwilight.Prelude.Bits.{complement, bit_and_align}
use libtwilight.Ios.{aligned_buffer}

-- The 528 words from `buffers` on do not reach the end of the address space.
abbrev pub Fits : ℕ → Type 0
Fits buffers = buffers + 2112 ≤ 2 ^ 32

pub aligned_buffer-eq :
    (buffers idx : ℕ)
    → Fits buffers
    → idx < 32
    → aligned_buffer buffers idx ≡ ((buffers + 63) / 64 + idx) * 64
unfolding aligned_buffer
aligned_buffer-eq buffers idx fits small =
    let x = buffers + idx * 64 + 63 in
    let whole : x % 2 ^ 32 ≡ x = omega arith in
    ap (λ (t : ℕ). bit_and t (complement 32 63)) whole
    ∙ bit_and_align 6 26 x (omega arith)
    ∙ omega arith

module _ (buffers : ℕ) (fits : Fits buffers) where
  -- For an array `_ios_buffers` of 528 words that fits the address space, each of the 32 buffers is
  -- aligned to 64 bytes and its 64 bytes lie in the array, and the buffers of two numbers do not overlap.
  pub aligned_buffer-IsSlot :
      (i j : ℕ)
      → i < j
      → j < 32
      → (aligned_buffer buffers i % 64 ≡ 0)
        × (buffers ≤ aligned_buffer buffers i)
        × (aligned_buffer buffers i + 64 ≤ aligned_buffer buffers j)
        × (aligned_buffer buffers j + 64 ≤ buffers + 2112)
  aligned_buffer-IsSlot i j lt small =
      let at_i = aligned_buffer-eq buffers i fits (omega arith) in
      let at_j = aligned_buffer-eq buffers j fits small in
      (omega (arith, at_i), omega (arith, at_i), omega (arith, at_i, at_j), omega (arith, at_j))
