-- ===== src/Slab/Examples.antt =====
-- The theorems about slabs at concrete chains.
use libtwilight.Prelude.{◌+◌, ◌*◌, ◌≡◌, refl, [], ◌∷◌, arith, inl, inr}
use libtwilight.Prelude.Bits.{bit_at}
use libtwilight.Slab.{Bucket, create, slot, add_item, remove_item}
use libtwilight.Slab.Single.{full_field, remove_item-add_item}
use libtwilight.Slab.Chain.{Takes, in_use-add_item, add_item-AllFull}

abbrev filled : Bucket
filled = record { used_bit_field = full_field; buffer = 4100; first = 4128 }

-- Slots 31 and 0 are in use.
abbrev partial : Bucket
partial = record { used_bit_field = 0x8000_0001; buffer = 8192; first = 8192 }

takes_30 : (add_item 0 partial []).1 ≡ 8192 + 30 * 32
unfolding add_item
takes_30 = refl

in_use-add_item_example : Takes (filled ∷ partial ∷ []) (add_item 0 filled (partial ∷ []))
in_use-add_item_example =
    in_use-add_item 0 filled (partial ∷ []) (omega arith) ((inl (omega arith), tt), (tt, tt))
      (inr (inl (omega arith)))

remove_item-add_item_example :
    let (chain, address) = add_item 0 partial (filled ∷ []) in
    remove_item chain address ≡ (partial ∷ filled ∷ [], 1)
remove_item-add_item_example =
    remove_item-add_item 0 partial (filled ∷ []) (omega arith) (omega arith)

add_item-AllFull_example :
    (add_item 12288 filled [] ≡ (filled ∷ create 12288 ∷ [], slot filled 31))
    × (bit_at 31 full_field ≡ 1)
    × ((create 12288).used_bit_field ≡ 0)
add_item-AllFull_example = add_item-AllFull 12288 filled [] (refl, tt)
