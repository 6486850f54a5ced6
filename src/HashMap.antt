-- ===== src/HashMap.antt =====
-- common/structures.c, TwHashMap: a table of fixed keys with linear probing. A C string is the list of its
-- bytes before the final 0; a slot holds a string or the null pointer.
pub mod Place
pub mod Fixed
pub mod Find
mod Examples
use libtwilight.Prelude.{
  ℕ, zero, suc, ◌+◌, ◌*◌, ◌%◌, ◌^◌, bit_and, Bool, true, false, ◌&&◌, List, [], ◌∷◌, Option, none,
  some, ◌==◌, if◌then◌else◌, length, take, get_elem?, set, replicate,
}
use libtwilight.Prelude.Int.{ℤ, pos, negsuc}

abbrev pub Slots : Type 0
Slots = List (Option (List ℕ))

-- The loop of `TW_GetStringHash`.
pub hash_loop : ℕ → List ℕ → ℕ
hash_loop hash [] = hash
hash_loop hash (c ∷ cs) = hash_loop ((hash * 2 ^ 5 + hash + c) % 2 ^ 32) cs

-- `TW_GetStringHash` of `len` bytes, or of all bytes before the final 0 if `len` is 0.
pub get_string_hash : List ℕ → ℕ → ℕ
unfolding hash_loop
get_string_hash str len = hash_loop 5381 (if len == 0 then str else take len str)

-- `(int)(hash & 0x7FFFffffU) % count`.
pub first_slot : ℕ → ℕ → ℕ
first_slot hash count = bit_and hash 0x7fffffff % count

-- The inner loop of `TW_MakeFixedMap` in its last `n` rounds.
pub place_loop : ℕ → ℕ → ℕ → ℕ → List ℕ → Slots → Slots
place_loop zero count idx j key slots = slots
place_loop (suc n) count idx j key slots =
    let later = place_loop n count idx (suc j) key slots in
    elim (get_elem? slots ((idx + j) % count)) [
      | none ↦ later
      | some s ↦ elim s [ none ↦ set slots ((idx + j) % count) (some key) | some k ↦ later ]
    ]

pub place_all : ℕ → List (List ℕ) → Slots → Slots
unfolding get_string_hash first_slot place_loop
place_all count [] slots = slots
place_all count (key ∷ keys) slots =
    place_all count keys
      (place_loop count count (first_slot (get_string_hash key 0) count) 0 key slots)

-- `TW_MakeFixedMap`: the slots; its capacity is their number.
pub make_fixed_map : List (List ℕ) → Slots
unfolding place_all
make_fixed_map keys = place_all (length keys) keys (replicate (length keys) none)

-- The comparison in `TW_GetHashMapIndex` of the string `k` with the `len` bytes of `key`.
pub is_same : List ℕ → List ℕ → ℕ → Bool
is_same [] key zero = true
is_same [] key (suc len) = false
is_same (c ∷ k) key zero = false
is_same (c ∷ k) [] (suc len) = false
is_same (c ∷ k) (d ∷ key) (suc len) = (c == d) && is_same k key len

-- The loop of `TW_GetHashMapIndex` in its last `n` rounds; there is no result if it reads a string through the
-- null pointer.
pub find_loop : ℕ → ℕ → ℕ → ℕ → List ℕ → ℕ → Slots → Option ℤ
unfolding is_same
find_loop zero count idx i key len slots = some (negsuc 0)
find_loop (suc n) count idx i key len slots =
    let later = find_loop n count idx (suc i) key len slots in
    elim (get_elem? slots ((idx + i) % count)) [
      | none ↦ none
      | some s ↦ elim s [ none ↦ none | some k ↦ if is_same k key len then some (pos i) else later ]
    ]

-- `TW_GetHashMapIndex`.
pub get_hash_map_index : Slots → List ℕ → ℕ → Option ℤ
unfolding get_string_hash first_slot find_loop
get_hash_map_index slots key len =
    let count = length slots in
    let idx = first_slot (get_string_hash key len) count in
    if count == 0 then some (negsuc 0) else find_loop count count idx 0 key len slots
