-- ===== src/Slab/Single.antt =====
-- One bucket: which slot `add_item` takes, and what `remove_item` gives back.
use libtwilight.Prelude.{
  ℕ, ◌+◌, ◌-◌, ◌/◌, ◌^◌, ◌<◌, ◌≡◌, refl, ◌≢◌, ap, true, List, [], ◌∷◌, arith, ◌==◌, if◌then◌else◌,
  lt→ltb,
}
use native.Mathlib.Decide.{ℕ_discrete}
use libtwilight.Prelude.Bits.{
  bit_at, complement, leading_zeros, leading_zeros-highest, bit_at-complement, bit_at-lt,
  bit_at-bit_or, bit_at-bit_and, bit_at-pow_self, bit_at-pow_ne, eq_of_bits, bit_or-lt, bit_and-lt,
  pow_lt_pow,
}
use libtwilight.Slab.{Bucket, count_leading_zeros, slot, mark, unmark, holds, add_item, remove_item}

-- All 32 slots are in use.
abbrev pub full_field : ℕ
full_field = 2 ^ 32 - 1

-- What holds of every bucket: the field has 32 bits, and the 1024 bytes lie below 2 ^ 32.
pub record IsValid (b : Bucket) : Type 0 where
  pub field_fits : b.used_bit_field < 2 ^ 32
  pub slots_fit : b.first + 1024 < 2 ^ 32

-- The slot that `add_item` takes in a bucket that is not full: the highest free one.
abbrev pub chosen : Bucket → ℕ
chosen b = 31 - count_leading_zeros (complement 32 b.used_bit_field)

pub mark_bits :
    (b : Bucket) (pos i : ℕ)
    → bit_at i (mark b pos).used_bit_field ≡ (if i == pos then 1 else bit_at i b.used_bit_field)
unfolding mark
mark_bits b pos i = elim (ℕ_discrete i pos) [
  | yes e ↦ ground (
    arith,
    bit_at-bit_or i b.used_bit_field (2 ^ pos),
    bit_at-pow_self pos,
    bit_at-lt i b.used_bit_field,
    ap (λ (t : ℕ). bit_at t (2 ^ pos)) e,
  )
  | no ne ↦ ground (arith, bit_at-bit_or i b.used_bit_field (2 ^ pos), bit_at-pow_ne i pos ne)
]

-- In a bucket that is not full, the chosen slot is free, and every slot above it is in use.
pub chosen_free :
    (b : Bucket)
    → IsValid b
    → b.used_bit_field ≢ full_field
    → (count_leading_zeros (complement 32 b.used_bit_field) < 32)
      × (bit_at (chosen b) b.used_bit_field ≡ 0)
      × ((i : ℕ) → chosen b < i → i < 32 → bit_at i b.used_bit_field ≡ 1)
unfolding count_leading_zeros
chosen_free b v ne = (hi.0, lowered, above)
  where
    unused : ℕ
    unused = complement 32 b.used_bit_field

    hi :
        (leading_zeros 32 unused < 32)
        × (bit_at (32 - 1 - leading_zeros 32 unused) unused ≡ 1)
        × ((i : ℕ) → 32 - 1 - leading_zeros 32 unused < i → bit_at i unused ≡ 0)
    hi = leading_zeros-highest 32 unused (omega arith) (omega arith)

    lowered : bit_at (31 - leading_zeros 32 unused) b.used_bit_field ≡ 0
    lowered = omega (
      arith,
      hi.1,
      bit_at-lt (31 - leading_zeros 32 unused) b.used_bit_field,
      bit_at-complement 32 (31 - leading_zeros 32 unused) b.used_bit_field (omega arith)
          (omega arith),
    )

    above : (i : ℕ) → 31 - leading_zeros 32 unused < i → i < 32 → bit_at i b.used_bit_field ≡ 1
    above i lt lt' = omega (
      arith,
      hi.2 i lt,
      bit_at-lt i b.used_bit_field,
      bit_at-complement 32 i b.used_bit_field lt' (omega arith),
    )

-- Every slot of a valid bucket has an address of its own, which the bucket holds, and from which
-- `remove_item` computes the slot's number again.
pub slot_held :
    (b : Bucket) (pos : ℕ)
    → IsValid b
    → pos < 32
    → (holds b (slot b pos) ≡ true) × ((slot b pos - b.first) / 2 ^ 5 ≡ pos)
unfolding holds slot
slot_held b pos v h = (ground arith, omega arith)

-- `TW_AddSb256Item` on a bucket that is not full takes its highest free slot: the slot was free,
-- the ones above it were in use, the address returned is that slot's, and the call changes this
-- slot's bit and no other.
pub add_item-takes-chosen :
    (allocated : ℕ) (b : Bucket) (rest : List Bucket)
    → IsValid b
    → b.used_bit_field ≢ full_field
    → (add_item allocated b rest ≡ (mark b (chosen b) ∷ rest, slot b (chosen b)))
      × (chosen b < 32)
      × (bit_at (chosen b) b.used_bit_field ≡ 0)
      × ((i : ℕ) → chosen b < i → i < 32 → bit_at i b.used_bit_field ≡ 1)
      × ((i : ℕ)
          → bit_at i (mark b (chosen b)).used_bit_field
            ≡ (if i == chosen b then 1 else bit_at i b.used_bit_field))
unfolding add_item
add_item-takes-chosen allocated b [] v ne =
    let (lt, free, above) = chosen_free b v ne in
    (rw (lt→ltb _ _ lt) refl, omega arith, free, above, mark_bits b (chosen b))
add_item-takes-chosen allocated b (next ∷ rest) v ne =
    let (lt, free, above) = chosen_free b v ne in
    (rw (lt→ltb _ _ lt) refl, omega arith, free, above, mark_bits b (chosen b))

pub mark-IsValid : (b : Bucket) (pos : ℕ) → IsValid b → pos < 32 → IsValid (mark b pos)
unfolding mark
mark-IsValid b pos v h = record {
  field_fits = bit_or-lt 32 b.used_bit_field (2 ^ pos) v.field_fits (pow_lt_pow pos 32 h);
  slots_fit = v.slots_fit;
}

unmark_bits :
    (b : Bucket) (pos i : ℕ)
    → pos < 32
    → i < 32
    → bit_at i (unmark b pos).used_bit_field ≡ (if i == pos then 0 else bit_at i b.used_bit_field)
unfolding unmark
unmark_bits b pos i hp hi =
    let both = bit_at-bit_and i b.used_bit_field (complement 32 (2 ^ pos)) in
    let flip = bit_at-complement 32 i (2 ^ pos) hi (pow_lt_pow pos 32 hp) in
    elim (ℕ_discrete i pos) [
      | yes e ↦
          ground (arith, both, flip, bit_at-pow_self pos, ap (λ (t : ℕ). bit_at t (2 ^ pos)) e)
      | no ne ↦ ground (arith, both, flip, bit_at-pow_ne i pos ne, bit_at-lt i b.used_bit_field)
    ]

pub unmark-IsValid : (b : Bucket) (pos : ℕ) → IsValid b → IsValid (unmark b pos)
unfolding unmark
unmark-IsValid b pos v = record {
  field_fits = bit_and-lt 32 b.used_bit_field (complement 32 (2 ^ pos)) v.field_fits;
  slots_fit = v.slots_fit;
}

-- Freeing the slot that was just marked gives the bucket back, if the slot was free.
pub unmark-mark :
    (b : Bucket) (pos : ℕ)
    → IsValid b
    → pos < 32
    → bit_at pos b.used_bit_field ≡ 0
    → unmark (mark b pos) pos ≡ b
unfolding unmark mark
unmark-mark b pos v h free =
    λ i. record { used_bit_field = same i; buffer = b.buffer; first = b.first }
  where
    bits :
        (i : ℕ)
        → i < 32
        → bit_at i (unmark (mark b pos) pos).used_bit_field ≡ bit_at i b.used_bit_field
    bits i hi = elim (ℕ_discrete i pos) [
      | yes e ↦
          ground (
            arith,
            unmark_bits (mark b pos) pos i h hi,
            ap (λ (t : ℕ). bit_at t b.used_bit_field) e,
          )
      | no ne ↦ ground (arith, unmark_bits (mark b pos) pos i h hi, mark_bits b pos i)
    ]

    same : (unmark (mark b pos) pos).used_bit_field ≡ b.used_bit_field
    same =
        eq_of_bits 32 _ b.used_bit_field
          (unmark-IsValid (mark b pos) pos (mark-IsValid b pos v h)).field_fits v.field_fits bits

-- What `TW_AddSb256Item` took, `TW_RemoveSb256Item` gives back: on a chain whose first bucket is
-- not full, removing the item just added succeeds and restores the chain.
pub remove_item-add_item :
    (allocated : ℕ) (b : Bucket) (rest : List Bucket)
    → IsValid b
    → b.used_bit_field ≢ full_field
    → let (chain, address) = add_item allocated b rest in remove_item chain address ≡ (b ∷ rest, 1)
unfolding remove_item
remove_item-add_item allocated b rest v ne =
    let (same, lt, free, _, _) = add_item-takes-chosen allocated b rest v ne in
    let (held, number) = slot_held b (chosen b) v lt in
    rw same (rw (held_mark held, number_mark number, unmark-mark b (chosen b) v lt free))
  where
    held_mark :
        holds b (slot b (chosen b)) ≡ true → holds (mark b (chosen b)) (slot b (chosen b)) ≡ true
    held_mark h = unfold mark in h

    number_mark :
        (slot b (chosen b) - b.first) / 2 ^ 5 ≡ chosen b
        → (slot b (chosen b) - (mark b (chosen b)).first) / 2 ^ 5 ≡ chosen b
    number_mark h = unfold mark in h
