-- ===== src/HashMap/Fixed.antt =====
-- common/structures.c, TW_MakeFixedMap: the map of all keys.
use mathlib.Core.Path.{subst}
use libtwilight.Prelude.{
  ℕ, zero, suc, ◌+◌, ◌%◌, ◌<◌, ◌≤◌, ◌≡◌, ◌≢◌, ◌⊎◌, inl, inr, refl, ap, sym, ◌∙◌, arith, List, [],
  ◌∷◌, some, length, get_elem?, set, get_elem?-set_self, get_elem?-set_ne, Bool-cases, ◌==◌,
}
use native.Mathlib.Nat.{mod-lt}
use libtwilight.HashMap.{Slots, get_string_hash, first_slot, place_loop, place_all}
use libtwilight.HashMap.Place.{
  Holds, IsMet, Extends, free_slots, slot-cases, place_loop-free, place_loop-held, round_of,
  free_slot, place_loop-IsMet,
}

IsMet-Extends :
    (count idx : ℕ) (key : List ℕ) (slots slots' : Slots)
    → IsMet count idx key slots
    → Extends slots slots'
    → IsMet count idx key slots'
IsMet-Extends count idx key slots slots' (i, small, h, before) (len, held) = (
  i,
  small,
  held ((idx + i) % count) key h,
  λ j l. let (k, e) = before j l in (k, held ((idx + j) % count) k e),
)

-- Every string in the slots is one of the keys.
abbrev pub AllFrom : List (List ℕ) → Slots → Type 0
AllFrom keys slots = (i : ℕ) (k : List ℕ) → Holds slots i k → (n : ℕ) × (get_elem? keys n ≡ some k)

set-from :
    (slots : Slots) (p : ℕ) (key : List ℕ)
    → p < length slots
    → (i : ℕ) (k : List ℕ) → Holds (set slots p (some key)) i k
    → Holds slots i k ⊎ (k ≡ key)
set-from slots p key small i k h = elim (Bool-cases (p == i)) [
  | inl e ↦
      let same : p ≡ i = ground arith in
      let there = ap (λ t. get_elem? (set slots p (some key)) t) same in
      let new = get_elem?-set_self slots p (some key) small in inr (cc)
  | inr e ↦
      let other : p ≢ i = ground arith in inl (sym (get_elem?-set_ne slots (some key) other) ∙ h)
]

-- What holds of the first of several keys and of the others holds of all.
at_index :
    {P : List ℕ → Type 0} (key : List ℕ) (keys : List (List ℕ))
    → P key
    → ((n : ℕ) (k : List ℕ) → get_elem? keys n ≡ some k → P k)
    → (n : ℕ) (k : List ℕ) → get_elem? (key ∷ keys) n ≡ some k
    → P k
at_index {P = P} key keys first others zero k h = let e : key ≡ k = cc in subst P e first
at_index key keys first others (suc n) k h = others n k h

-- The slot that a string stands in after a key was placed held it before, unless the string is the key.
place_loop-from :
    (n count idx j : ℕ) (key : List ℕ) (slots : Slots) (i : ℕ) (k : List ℕ)
    → 0 < count
    → length slots ≡ count
    → Holds (place_loop n count idx j key slots) i k
    → Holds slots i k ⊎ (k ≡ key)
unfolding place_loop
place_loop-from zero count idx j key slots i k some_slot len h = inl h
place_loop-from (suc n) count idx j key slots i k some_slot len h =
    let p = (idx + j) % count in
    let small : p < length slots = omega (arith, mod-lt (idx + j) {m = count} some_slot) in
    elim (slot-cases slots p small) [
      | inl e ↦
          set-from slots p key small i k
            (subst (λ t. Holds t i k) (place_loop-free n count idx j key slots e) h)
      | inr q ↦
          place_loop-from n count idx (suc j) key slots i k some_slot len
            (subst (λ t. Holds t i k) (place_loop-held n count idx j key q.0 slots q.1) h)
    ]

module _ (count : ℕ) (some_slot : 0 < count) where
  place_one :
      (key : List ℕ) (slots : Slots)
      → length slots ≡ count
      → 0 < free_slots slots
      → let idx = first_slot (get_string_hash key 0) count in
        let slots' = place_loop count count idx 0 key slots in
        Extends slots slots'
        × (suc (free_slots slots') ≡ free_slots slots)
        × IsMet count idx key slots'
  unfolding first_slot
  place_one key slots len room =
      let idx = first_slot (get_string_hash key 0) count in
      let (p, small, free) = free_slot slots room in
      let (f, low, at_p) = round_of idx count p (mod-lt _ some_slot) (omega arith) in
      place_loop-IsMet count count idx 0 key slots len (omega arith) (λ j l. absurd (omega arith)) f
        (omega arith) low (ap (λ t. get_elem? slots t) at_p ∙ free)

  pub place_all-IsMet :
      (keys : List (List ℕ)) (slots : Slots)
      → length slots ≡ count
      → length keys ≤ free_slots slots
      → let slots' = place_all count keys slots in
        Extends slots slots'
        × (free_slots slots' + length keys ≡ free_slots slots)
        × ((n : ℕ) (key : List ℕ)
            → get_elem? keys n ≡ some key
            → IsMet count (first_slot (get_string_hash key 0) count) key slots')
  unfolding place_all
  place_all-IsMet [] slots len room = ((refl, λ i k h. h), omega arith, λ n key h. absurd (cc))
  place_all-IsMet (key ∷ keys) slots len room =
      let idx = first_slot (get_string_hash key 0) count in
      let now = place_loop count count idx 0 key slots in
      let (ext, used, met) = place_one key slots len (omega arith) in
      let (ext', used', mets) = place_all-IsMet keys now (ext.0 ∙ len) (omega arith) in
      (
        (ext'.0 ∙ ext.0, λ i k h. ext'.1 i k (ext.1 i k h)),
        omega arith,
        at_index key keys (IsMet-Extends count idx key now (place_all count keys now) met ext')
            mets,
      )

  pub place_all-from :
      (keys : List (List ℕ)) (slots : Slots)
      → length slots ≡ count
      → length keys ≤ free_slots slots
      → (i : ℕ) (k : List ℕ) → Holds (place_all count keys slots) i k
      → Holds slots i k ⊎ ((n : ℕ) × (get_elem? keys n ≡ some k))
  unfolding place_all
  place_all-from [] slots len room i k h = inl h
  place_all-from (key ∷ keys) slots len room i k h =
      let idx = first_slot (get_string_hash key 0) count in
      let now = place_loop count count idx 0 key slots in
      let (ext, used, met) = place_one key slots len (omega arith) in
      elim (place_all-from keys now (ext.0 ∙ len) (omega arith) i k h) [
        | inl e ↦ elim (place_loop-from count count idx 0 key slots i k some_slot len e) [
          | inl old ↦ inl old
          | inr same ↦ inr (0, ap (λ t. some t) (sym same))
        ]
        | inr q ↦ inr (suc q.0, q.1)
      ]
