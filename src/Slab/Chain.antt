-- ===== src/Slab/Chain.antt =====
-- Whole chains: which addresses are in use, and what `add_item` does when every bucket is full.
use libtwilight.Prelude.{
  ℕ, ◌+◌, ◌-◌, ◌*◌, ◌/◌, ◌%◌, ◌^◌, ◌≤◌, ◌<◌, bit_and, bit_or, ◌≡◌, refl, ◌≢◌, Bool, true, false,
  ◌&&◌, List, [], ◌∷◌, ◌++◌, arith, ltb, leb, ◌==◌, if◌then◌else◌, ◌⊎◌, inl, inr,
}
use native.Mathlib.Decide.{ℕ_discrete}
use libtwilight.Prelude.Bits.{bit_at, complement, leading_zeros, bit_and_align}
use libtwilight.Slab.{Bucket, count_leading_zeros, create, slot, mark, add_item}
use libtwilight.Slab.Single.{full_field, IsValid, chosen, add_item-takes-chosen, mark_bits}

abbrev pub AllFull : List Bucket → Type 0
AllFull [] = Unit {0}
AllFull (b ∷ rest) = (b.used_bit_field ≡ full_field) × AllFull rest

abbrev pub AllValid : List Bucket → Type 0
AllValid [] = Unit {0}
AllValid (b ∷ rest) = IsValid b × AllValid rest

-- The slots of `b` overlap none of those of the chain.
abbrev pub IsApartFrom : Bucket → List Bucket → Type 0
IsApartFrom b [] = Unit {0}
IsApartFrom b (c ∷ rest) =
    ((b.first + 1024 ≤ c.first) ⊎ (c.first + 1024 ≤ b.first)) × IsApartFrom b rest

abbrev pub AreApart : List Bucket → Type 0
AreApart [] = Unit {0}
AreApart (b ∷ rest) = IsApartFrom b rest × AreApart rest

-- Some bucket has a free slot.
abbrev pub HasFree : List Bucket → Type 0
HasFree [] = ⊥
HasFree (b ∷ rest) = (b.used_bit_field ≢ full_field) ⊎ HasFree rest

abbrev pub last : Bucket → List Bucket → Bucket
last b [] = b
last b (c ∷ rest) = last c rest

-- Is the slot that this address lies in taken?
abbrev pub in_use : List Bucket → ℕ → Bool
in_use [] a = false
in_use (b ∷ rest) a =
    let later = in_use rest a in
    if leb b.first a && ltb a (b.first + 1024)
    then bit_at ((a - b.first) / 32) b.used_bit_field == 1
    else later

add_item-full :
    (allocated : ℕ) (b next : Bucket) (rest : List Bucket)
    → b.used_bit_field ≡ full_field
    → add_item allocated b (next ∷ rest)
      ≡ (b ∷ (add_item allocated next rest).0, (add_item allocated next rest).1)
unfolding add_item count_leading_zeros leading_zeros
add_item-full allocated b next rest e = rw e refl

-- What `add_item` returns from a bucket with a free slot is outside a bucket that is apart from it.
chosen_apart :
    (allocated : ℕ) (c b : Bucket) (rest : List Bucket)
    → IsValid b
    → (c.first + 1024 ≤ b.first) ⊎ (b.first + 1024 ≤ c.first)
    → b.used_bit_field ≢ full_field
    → (c.first + 1024 ≤ (add_item allocated b rest).1)
      ⊎ ((add_item allocated b rest).1 + 32 ≤ c.first)
chosen_apart allocated c b rest v d ne =
    let (same, lt, _, _, _) = add_item-takes-chosen allocated b rest v ne in rw same (near lt)
  where
    near : chosen b < 32 → (c.first + 1024 ≤ slot b (chosen b)) ⊎ (slot b (chosen b) + 32 ≤ c.first)
    near lt = unfold slot in ground arith

add_item-apart :
    (allocated : ℕ) (c b : Bucket) (rest : List Bucket)
    → AllValid (b ∷ rest)
    → IsApartFrom c (b ∷ rest)
    → HasFree (b ∷ rest)
    → (c.first + 1024 ≤ (add_item allocated b rest).1)
      ⊎ ((add_item allocated b rest).1 + 32 ≤ c.first)
add_item-apart allocated c b [] (v, _) (d, _) (inl ne) = chosen_apart allocated c b [] v d ne
add_item-apart allocated c b [] _ _ (inr impossible) = absurd impossible
add_item-apart allocated c b (next ∷ rest) (v, vs) (d, ds) free =
    elim (ℕ_discrete b.used_bit_field full_field) [
      | no ne ↦ chosen_apart allocated c b (next ∷ rest) v d ne
      | yes e ↦
          rw (add_item-full allocated b next rest e)
            (add_item-apart allocated c next rest vs ds (later free e))
    ]
  where
    later : HasFree (b ∷ next ∷ rest) → b.used_bit_field ≡ full_field → HasFree (next ∷ rest)
    later (inl ne) e = absurd (ne e)
    later (inr f) e = f

-- Marking a slot of the first bucket changes `in_use` at the addresses of that slot alone.
in_use-mark :
    (b : Bucket) (pos : ℕ) (rest : List Bucket) (a : ℕ)
    → IsValid b
    → pos < 32
    → in_use (mark b pos ∷ rest) a
      ≡ (if leb (slot b pos) a && ltb a (slot b pos + 32) then true else in_use (b ∷ rest) a)
unfolding slot mark
in_use-mark b pos rest a v lt = ground (arith, mark_bits b pos ((a - b.first) / 32))

-- A slot of the first bucket is in use as its bit says.
in_use-slot :
    (b : Bucket) (pos : ℕ) (rest : List Bucket)
    → IsValid b
    → pos < 32
    → bit_at pos b.used_bit_field ≡ 0
    → in_use (b ∷ rest) (slot b pos) ≡ false
unfolding slot
in_use-slot b pos rest v lt free =
    let number : ((b.first + pos * 32) % 2 ^ 32 - b.first) / 32 ≡ pos = omega arith in
    let bit : bit_at (((b.first + pos * 32) % 2 ^ 32 - b.first) / 32) b.used_bit_field ≡ 0 =
      rw number free in
    ground arith

-- An address outside the first bucket is in use as the rest of the chain says.
in_use-outside :
    (b : Bucket) (rest : List Bucket) (a : ℕ)
    → (b.first + 1024 ≤ a) ⊎ (a < b.first)
    → in_use (b ∷ rest) a ≡ in_use rest a
in_use-outside b rest a h = ground arith

-- What a call that returned `chain` and `address` did to the addresses in use.
abbrev pub Takes : List Bucket → List Bucket × ℕ → Type 0
Takes before (after, address) =
    (in_use before address ≡ false)
    × ((a : ℕ)
        → in_use after a
          ≡ (if leb address a && ltb a (address + 32) then true else in_use before a))

Takes-chosen :
    (allocated : ℕ) (b : Bucket) (rest : List Bucket)
    → IsValid b
    → b.used_bit_field ≢ full_field
    → Takes (b ∷ rest) (add_item allocated b rest)
Takes-chosen allocated b rest v ne =
    let (same, lt, free, _, _) = add_item-takes-chosen allocated b rest v ne in
    rw same (in_use-slot b (chosen b) rest v lt free, λ a. in_use-mark b (chosen b) rest a v lt)

-- A full bucket in front of a chain changes nothing.
Takes-behind :
    (b : Bucket) (before after : List Bucket) (address : ℕ)
    → (b.first + 1024 ≤ address) ⊎ (address + 32 ≤ b.first)
    → Takes before (after, address)
    → Takes (b ∷ before) (b ∷ after, address)
Takes-behind b before after address d (fresh, others) =
    (ground arith, λ a. ground (arith, others a))

-- `TW_AddSb256Item` on a chain of buckets that do not overlap and have a free slot among them: the
-- address returned was not in use, and after the call the 32 bytes from it on are in use, and all
-- other addresses are as they were.
pub in_use-add_item :
    (allocated : ℕ) (b : Bucket) (rest : List Bucket)
    → AllValid (b ∷ rest)
    → AreApart (b ∷ rest)
    → HasFree (b ∷ rest)
    → Takes (b ∷ rest) (add_item allocated b rest)
in_use-add_item allocated b [] (v, _) _ (inl ne) = Takes-chosen allocated b [] v ne
in_use-add_item allocated b [] _ _ (inr impossible) = absurd impossible
in_use-add_item allocated b (next ∷ rest) (v, vs) (d, ds) free =
    elim (ℕ_discrete b.used_bit_field full_field) [
      | no ne ↦ Takes-chosen allocated b (next ∷ rest) v ne
      | yes e ↦ rw (add_item-full allocated b next rest e) (
          Takes-behind b (next ∷ rest) _ _
            (add_item-apart allocated b next rest vs d (later free e))
            (in_use-add_item allocated next rest vs ds (later free e)))
    ]
  where
    later : HasFree (b ∷ next ∷ rest) → b.used_bit_field ≡ full_field → HasFree (next ∷ rest)
    later (inl ne) e = absurd (ne e)
    later (inr f) e = f

mark_full : (b : Bucket) → b.used_bit_field ≡ full_field → mark b 31 ≡ b
unfolding mark
mark_full b e = λ i. record { used_bit_field = same i; buffer = b.buffer; first = b.first }
  where
    same : bit_or b.used_bit_field (2 ^ 31) ≡ b.used_bit_field
    same = rw e refl

add_item_last_full :
    (allocated : ℕ) (b : Bucket)
    → b.used_bit_field ≡ full_field
    → add_item allocated b [] ≡ (mark b 31 ∷ create allocated ∷ [], slot b 31)
unfolding add_item count_leading_zeros leading_zeros
add_item_last_full allocated b e = rw e refl

-- When every slot of every bucket is in use, `TW_AddSb256Item` links a new, empty bucket at the end,
-- yet returns the address of slot 31 of the bucket that was last before: a slot already in use. No
-- slot of the new bucket is marked.
pub add_item-AllFull :
    (allocated : ℕ) (b : Bucket) (rest : List Bucket)
    → AllFull (b ∷ rest)
    → (add_item allocated b rest ≡ ((b ∷ rest) ++ create allocated ∷ [], slot (last b rest) 31))
      × (bit_at 31 (last b rest).used_bit_field ≡ 1)
      × ((create allocated).used_bit_field ≡ 0)
unfolding create
add_item-AllFull allocated b [] (e, _) =
    (rw (add_item_last_full allocated b e, mark_full b e) refl, rw e refl, refl)
add_item-AllFull allocated b (next ∷ rest) (e, es) =
    let (same, used, empty) = add_item-AllFull allocated next rest es in
    (rw (add_item-full allocated b next rest e, same) refl, used, empty)

-- `TW_CreateSlabBucket256` puts the first slot at the least multiple of 32 from the buffer on, so
-- that a buffer of 1056 bytes holds all 1024 bytes of the slots, and the bucket starts empty.
create_aligned :
    (buffer : ℕ)
    → buffer + 1056 < 2 ^ 32
    → let b = create buffer in
      IsValid b
      × (b.first % 32 ≡ 0)
      × (buffer ≤ b.first)
      × (b.first < buffer + 32)
      × (b.used_bit_field ≡ 0)
unfolding create
create_aligned buffer h =
    let word : (buffer + 31) % 2 ^ 32 ≡ buffer + 31 = omega arith in
    let aligned : bit_and ((buffer + 31) % 2 ^ 32) (complement 32 31) ≡ (buffer + 31) / 32 * 32 =
      rw word (bit_and_align 5 27 (buffer + 31) (omega arith)) in
    omega (arith, aligned)
