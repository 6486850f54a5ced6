-- ===== src/HashMap/Examples.antt =====
-- The theorems about fixed maps at one of three keys.
use libtwilight.Prelude.{
  ℕ, zero, suc, ◌+◌, ◌%◌, ◌≡◌, ◌≢◌, refl, List, [], ◌∷◌, some, codes, length, get_elem?,
}
use libtwilight.Prelude.Int.{pos, negsuc}
use libtwilight.HashMap.{get_string_hash, first_slot, make_fixed_map, get_hash_map_index}
use libtwilight.HashMap.Find.{get_hash_map_index-present, get_hash_map_index-absent}

abbrev keys : List (List ℕ)
keys = codes "fd" ∷ codes "path" ∷ codes "mode" ∷ []

get_hash_map_index-present_example :
    let slots = make_fixed_map keys in
    let idx = first_slot (get_string_hash (codes "mode") 4) (length slots) in
    (i : ℕ) × (get_hash_map_index slots (codes "mode") 4 ≡ some (pos i))
    × (get_elem? slots ((idx + i) % length slots) ≡ some (some (codes "mode")))
get_hash_map_index-present_example = get_hash_map_index-present keys (codes "mode") 2 refl

not_a_key : (n : ℕ) → get_elem? keys n ≢ some (codes "pat")
not_a_key zero h = absurd (cc)
not_a_key (suc zero) h = absurd (cc)
not_a_key (suc (suc zero)) h = absurd (cc)
not_a_key (suc (suc (suc n))) h = absurd (cc)

get_hash_map_index-absent_example :
    get_hash_map_index (make_fixed_map keys) (codes "pat") 3 ≡ some (negsuc 0)
get_hash_map_index-absent_example = get_hash_map_index-absent keys (codes "pat") not_a_key
