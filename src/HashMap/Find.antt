-- ===== src/HashMap/Find.antt =====
-- common/structures.c, TW_GetHashMapIndex: lookups in a fixed map.
use mathlib.Core.Path.{subst}
use libtwilight.Prelude.{
  ℕ, zero, suc, ◌+◌, ◌%◌, ◌<◌, ◌≤◌, ◌≡◌, ◌≢◌, inl, inr, refl, ap, ap₂, sym, ◌∙◌, arith, List, [],
  ◌∷◌, Option, none, some, length, get_elem?, take, replicate, length-replicate, take_all, true,
  false, ◌&&◌, Bool-cases, ltb, ltb→lt, ◌==◌, eq→==, ne→==, if◌then◌else◌,
}
use native.Mathlib.Nat.{mod-lt}
use libtwilight.Prelude.Int.{ℤ, pos, negsuc}
use libtwilight.HashMap.{
  Slots, get_string_hash, hash_loop, first_slot, place_all, make_fixed_map, is_same, find_loop,
  get_hash_map_index,
}
use libtwilight.HashMap.Place.{
  Holds, AllHeld, free_slots, free_slots-replicate, no_strings, all_held,
}
use libtwilight.HashMap.Fixed.{place_all-IsMet, place_all-from}

is_same_self : (k : List ℕ) → is_same k k (length k) ≡ true
unfolding is_same
is_same_self [] = refl
is_same_self (c ∷ k) = ap (λ t. t && is_same k k (length k)) (eq→== c c refl) ∙ is_same_self k

is_same_eq : (k key : List ℕ) → is_same k key (length key) ≡ true → k ≡ key
unfolding is_same
is_same_eq [] [] h = refl
is_same_eq [] (d ∷ key) h = absurd (cc)
is_same_eq (c ∷ k) [] h = absurd (cc)
is_same_eq (c ∷ k) (d ∷ key) h = elim (Bool-cases (c == d)) [
  | inl e ↦
      let same : c ≡ d = ground arith in
      let rest : is_same k key (length key) ≡ true =
        sym (ap (λ t. t && is_same k key (length key)) e) ∙ h in
      let tails = is_same_eq k key rest in cc
  | inr e ↦
      let differ : false ≡ true = sym (ap (λ t. t && is_same k key (length key)) e) ∙ h in
      absurd (cc)
]

-- One round of the search at a slot that holds a string.
find_loop-suc :
    (n count idx i : ℕ) (key : List ℕ) (len : ℕ) (slots : Slots) (k : List ℕ)
    → Holds slots ((idx + i) % count) k
    → find_loop (suc n) count idx i key len slots
      ≡ (if is_same k key len then some (pos i) else find_loop n count idx (suc i) key len slots)
unfolding find_loop
find_loop-suc n count idx i key len slots k h =
    let later = find_loop n count idx (suc i) key len slots in
    ap
      (λ (x : Option (Option (List ℕ))). elim x as (λ y. Option ℤ) [
        | none ↦ none
        | some s ↦ elim s [
          | none ↦ none
          | some t ↦ if is_same t key len then some (pos i) else later
        ]
      ])
      h

module _ (count idx : ℕ) (key : List ℕ) (slots : Slots) where
  find_loop-IsMet :
      (n j i : ℕ)
      → n + j ≡ count
      → j ≤ i
      → i < count
      → Holds slots ((idx + i) % count) key
      → AllHeld count slots idx i
      → (m : ℕ) × (find_loop n count idx j key (length key) slots ≡ some (pos m))
        × Holds slots ((idx + m) % count) key
  find_loop-IsMet zero j i total low high h before = absurd (omega arith)
  find_loop-IsMet (suc n) j i total low high h before =
      let later = find_loop n count idx (suc j) key (length key) slots in
      elim (Bool-cases (j == i)) [
        | inl e ↦
            let same : j ≡ i = ground arith in
            let here : Holds slots ((idx + j) % count) key =
              ap (λ t. get_elem? slots ((idx + t) % count)) same ∙ h in
            (
              j,
              find_loop-suc n count idx j key (length key) slots key here
                  ∙ ap (λ t. if t then some (pos j) else later) (is_same_self key),
              here,
            )
        | inr e ↦
            let small : j < i = ground arith in
            let (k, here) = before j small in
            let step = find_loop-suc n count idx j key (length key) slots k here in
            elim (Bool-cases (is_same k key (length key))) [
              | inl f ↦ (
                j,
                step ∙ ap (λ t. if t then some (pos j) else later) f,
                subst (λ t. Holds slots ((idx + j) % count) t) (is_same_eq k key f) here,
              )
              | inr f ↦
                  let (m, found, there) =
                    find_loop-IsMet n (suc j) i (omega arith) small high h before in
                  (m, step ∙ ap (λ t. if t then some (pos j) else later) f ∙ found, there)
            ]
      ]

  find_loop-absent :
      (n j : ℕ)
      → ((p : ℕ) → p < count → (k : List ℕ) × Holds slots p k × (k ≢ key))
      → n + j ≡ count
      → find_loop n count idx j key (length key) slots ≡ some (negsuc 0)
  unfolding find_loop
  find_loop-absent zero j others total = refl
  find_loop-absent (suc n) j others total =
      let later = find_loop n count idx (suc j) key (length key) slots in
      let (k, here, other) = others ((idx + j) % count) (mod-lt (idx + j) (omega arith)) in
      let differs : is_same k key (length key) ≡ false =
        elim (Bool-cases (is_same k key (length key))) [
          | inl f ↦ absurd (other (is_same_eq k key f))
          | inr f ↦ f
        ] in
      find_loop-suc n count idx j key (length key) slots k here
      ∙ ap (λ t. if t then some (pos j) else later) differs
      ∙ find_loop-absent n (suc j) others (omega arith)

-- A length that is given hashes the string to its end.
get_string_hash-length : (key : List ℕ) → get_string_hash key (length key) ≡ get_string_hash key 0
unfolding get_string_hash
get_string_hash-length key = elim (Bool-cases (length key == 0)) [
  | inl e ↦ ap (λ t. hash_loop 5381 (if t then key else take (length key) key)) e
  | inr e ↦
      ap (λ t. hash_loop 5381 (if t then key else take (length key) key)) e
      ∙ ap (hash_loop 5381) (take_all (length key) key (omega arith))
]

index_small :
    (keys : List (List ℕ)) (n : ℕ) (key : List ℕ) → get_elem? keys n ≡ some key → 0 < length keys
index_small [] n key h = absurd (cc)
index_small (k ∷ keys) n key h = omega arith

no_keys :
    (keys : List (List ℕ)) (key : List ℕ)
    → length keys ≡ 0
    → get_hash_map_index (make_fixed_map keys) key (length key) ≡ some (negsuc 0)
unfolding get_hash_map_index make_fixed_map place_all
no_keys [] key h = refl
no_keys (k ∷ keys) key h = absurd (omega arith)

-- A lookup is a search of all slots from the first slot of the key.
get_hash_map_index-eq :
    (slots : Slots) (key : List ℕ) (count : ℕ)
    → length slots ≡ count
    → 0 < count
    → get_hash_map_index slots key (length key)
      ≡ find_loop count count (first_slot (get_string_hash key 0) count) 0 key (length key) slots
unfolding get_hash_map_index
get_hash_map_index-eq slots key count len some_slot =
    let search_at : ℕ → ℕ → Option ℤ =
      λ h c. find_loop c c (first_slot h c) 0 key (length key) slots in
    let size = length slots in
    ap (λ t. if t then some (negsuc 0) else search_at (get_string_hash key (length key)) size)
      (ne→== size 0 (λ e. omega (arith, e, len)))
    ∙ ap₂ search_at (get_string_hash-length key) len

module _ (keys : List (List ℕ)) (key : List ℕ) where
  -- `TW_GetHashMapIndex` in the map that `TW_MakeFixedMap` makes finds every key of the map: it returns the
  -- distance from the first slot of the key to a slot that holds the key.
  pub get_hash_map_index-present :
      (n : ℕ)
      → get_elem? keys n ≡ some key
      → let slots = make_fixed_map keys in
        let idx = first_slot (get_string_hash key (length key)) (length slots) in
        (i : ℕ) × (get_hash_map_index slots key (length key) ≡ some (pos i))
        × (get_elem? slots ((idx + i) % length slots) ≡ some (some key))
  unfolding make_fixed_map
  get_hash_map_index-present n h =
      let count = length keys in
      let some_slot : 0 < count = index_small keys n key h in
      let empty : Slots = replicate count none in
      let slots = place_all count keys empty in
      let idx = first_slot (get_string_hash key 0) count in
      let (ext, used, mets) =
        place_all-IsMet count some_slot keys empty (length-replicate count none)
          (omega (arith, free_slots-replicate count)) in
      let len : length slots ≡ count = ext.0 ∙ length-replicate count none in
      let (i, small, here, before) = mets n key h in
      let (m, found, there) =
        find_loop-IsMet count idx key slots count 0 i (omega arith) (omega arith) small here
          before in
      (
        m,
        get_hash_map_index-eq slots key count len some_slot ∙ found,
        ap₂ (λ t c. get_elem? slots ((first_slot t c + m) % c)) (get_string_hash-length key) len
            ∙ there,
      )

  -- For a string that is not a key of the map it returns -1, and it reads no string through the null pointer.
  pub get_hash_map_index-absent :
      ((n : ℕ) → get_elem? keys n ≢ some key)
      → get_hash_map_index (make_fixed_map keys) key (length key) ≡ some (negsuc 0)
  unfolding make_fixed_map
  get_hash_map_index-absent others =
      let count = length keys in
      let empty : Slots = replicate count none in
      let slots = place_all count keys empty in
      let idx = first_slot (get_string_hash key 0) count in
      let room : length keys ≤ free_slots empty = omega (arith, free_slots-replicate count) in
      elim (Bool-cases (ltb 0 count)) [
        | inl e ↦
            let some_slot = ltb→lt 0 count e in
            let (ext, used, mets) =
              place_all-IsMet count some_slot keys empty (length-replicate count none) room in
            let len : length slots ≡ count = ext.0 ∙ length-replicate count none in
            get_hash_map_index-eq slots key count len some_slot
            ∙ find_loop-absent count idx key slots count 0
                (λ p small.
                  let (k, h) =
                    all_held slots p (omega (arith, free_slots-replicate count))
                      (omega (arith, len)) in
                  let from =
                    place_all-from count some_slot keys empty (length-replicate count none) room p k
                      h in
                  (
                    k,
                    h,
                    λ same. elim from [
                      | inl old ↦ no_strings count p k old
                      | inr q ↦ others q.0 (q.1 ∙ ap (λ t. some t) same)
                    ],
                  ))
                (omega arith)
        | inr e ↦ let none_left : length keys ≡ 0 = ground arith in no_keys keys key none_left
      ]
