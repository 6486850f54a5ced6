-- ===== src/Slab.antt =====
-- common/structures.c, TwSlabBucket256: a chain of buckets of 32 slots of 32 bytes, each bucket with
-- a bit field of the slots in use. A chain is the list of its buckets, `next` by `next`; addresses
-- are 32-bit words. `TW_Allocate` enters as the address that it returned.
pub mod Single
pub mod Chain
mod Examples
use libtwilight.Prelude.{
  ℕ, ◌+◌, ◌-◌, ◌*◌, ◌/◌, ◌%◌, ◌^◌, bit_and, bit_or, Bool, ◌&&◌, List, [], ◌∷◌, ltb, leb,
  if◌then◌else◌,
}
use libtwilight.Prelude.Bits.{complement, leading_zeros}

pub record Bucket : Type 0 where
  pub used_bit_field : ℕ
  pub buffer : ℕ
  pub first : ℕ

-- `TW_CountLeadingZeros`, the instruction `cntlzw`.
pub count_leading_zeros : ℕ → ℕ
unfolding leading_zeros
count_leading_zeros value = leading_zeros 32 value

-- `TW_CreateSlabBucket256`: the first slot is at the next multiple of 32.
pub create : ℕ → Bucket
create buffer = record {
  used_bit_field = 0;
  buffer = buffer;
  first = bit_and ((buffer + 0x1f) % 2 ^ 32) (complement 32 0x1f);
}

pub slot : Bucket → ℕ → ℕ
slot b pos = (b.first + pos * 2 ^ 5) % 2 ^ 32

pub mark : Bucket → ℕ → Bucket
mark b pos = record b { used_bit_field = bit_or b.used_bit_field (2 ^ pos) }

-- `TW_AddSb256Item` on the chain `bucket ∷ rest`: the chain after the call, and the address. Where
-- the loop comes to the end of the chain, it links a new bucket, sets `flag` to 0, and goes on with
-- `bucket`, which is still the last of the old chain.
pub add_item : ℕ → Bucket → List Bucket → List Bucket × ℕ
unfolding count_leading_zeros mark slot create
add_item allocated b [] =
    let flag = count_leading_zeros (complement 32 b.used_bit_field) in
    if ltb flag 32
    then (mark b (31 - flag) ∷ [], slot b (31 - flag))
    else (mark b 31 ∷ create allocated ∷ [], slot b 31)
add_item allocated b (next ∷ rest) =
    let flag = count_leading_zeros (complement 32 b.used_bit_field) in
    let (chain, address) = add_item allocated next rest in
    if ltb flag 32
    then (mark b (31 - flag) ∷ next ∷ rest, slot b (31 - flag))
    else (b ∷ chain, address)

pub holds : Bucket → ℕ → Bool
holds b item = leb b.first item && ltb item ((b.first + 1024) % 2 ^ 32)

pub unmark : Bucket → ℕ → Bucket
unmark b pos = record b { used_bit_field = bit_and b.used_bit_field (complement 32 (2 ^ pos)) }

-- `TW_RemoveSb256Item`: the chain after the call, and 1 if a bucket held the address.
pub remove_item : List Bucket → ℕ → List Bucket × ℕ
unfolding holds unmark
remove_item [] item = ([], 0)
remove_item (b ∷ rest) item =
    let (chain, found) = remove_item rest item in
    if holds b item then (unmark b ((item - b.first) / 2 ^ 5) ∷ rest, 1) else (b ∷ chain, found)
