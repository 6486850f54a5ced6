-- ===== src/HashMap/Place.antt =====
-- common/structures.c, TW_MakeFixedMap: where the keys of a fixed map stand.
use libtwilight.Prelude.{
  ℕ, zero, suc, ◌+◌, ◌-◌, ◌%◌, ◌<◌, ◌≤◌, ◌≡◌, ◌≢◌, ◌⊎◌, inl, inr, refl, ap, sym, ◌∙◌, arith, List,
  [], ◌∷◌, Option, none, some, length, get_elem?, set, replicate, length-set, get_elem?-set_self,
  Bool-cases, ltb, ltb→lt,
}
use mathlib.Core.Path.{subst}
use native.Mathlib.Nat.{mod-eq-sub-mod, mod-eq_of_lt, mod-lt}
use libtwilight.HashMap.{Slots, place_loop}

-- The slot `i` holds the string `key`.
abbrev pub Holds : Slots → ℕ → List ℕ → Type 0
Holds slots i key = get_elem? slots i ≡ some (some key)

-- The first `i` slots that a search from `idx` looks at all hold strings.
abbrev pub AllHeld : ℕ → Slots → ℕ → ℕ → Type 0
AllHeld count slots idx i = (j : ℕ) → j < i → (k : List ℕ) × Holds slots ((idx + j) % count) k

-- A search from `idx` for `key` meets it behind slots that hold strings.
abbrev pub IsMet : ℕ → ℕ → List ℕ → Slots → Type 0
IsMet count idx key slots =
    (i : ℕ) × (i < count) × Holds slots ((idx + i) % count) key × AllHeld count slots idx i

-- What a placement may do: it fills free slots.
abbrev pub Extends : Slots → Slots → Type 0
Extends slots slots' =
    (length slots' ≡ length slots) × ((i : ℕ) (k : List ℕ) → Holds slots i k → Holds slots' i k)

pub free_slots : Slots → ℕ
free_slots [] = 0
free_slots (none ∷ slots) = suc (free_slots slots)
free_slots (some k ∷ slots) = free_slots slots

set-Holds :
    (slots : Slots) (p : ℕ) (key : List ℕ)
    → get_elem? slots p ≡ some none
    → (i : ℕ) (k : List ℕ) → Holds slots i k
    → Holds (set slots p (some key)) i k
set-Holds [] p key free i k h = h
set-Holds (s ∷ slots) zero key free zero k h = absurd (cc)
set-Holds (s ∷ slots) zero key free (suc i) k h = h
set-Holds (s ∷ slots) (suc p) key free zero k h = h
set-Holds (s ∷ slots) (suc p) key free (suc i) k h = set-Holds slots p key free i k h

set-free_slots :
    (slots : Slots) (p : ℕ) (key : List ℕ)
    → get_elem? slots p ≡ some none
    → suc (free_slots (set slots p (some key))) ≡ free_slots slots
unfolding free_slots
set-free_slots [] p key free = absurd (cc)
set-free_slots (none ∷ slots) zero key free = refl
set-free_slots (some k ∷ slots) zero key free = absurd (cc)
set-free_slots (none ∷ slots) (suc p) key free = ap suc (set-free_slots slots p key free)
set-free_slots (some k ∷ slots) (suc p) key free = set-free_slots slots p key free

pub free_slot :
    (slots : Slots)
    → 0 < free_slots slots
    → (p : ℕ) × (p < length slots) × (get_elem? slots p ≡ some none)
unfolding free_slots
free_slot [] h = absurd (omega arith)
free_slot (none ∷ slots) h = (0, omega arith, refl)
free_slot (some k ∷ slots) h =
    let (p, small, free) = free_slot slots h in (suc p, omega arith, free)

pub free_slots-replicate : (n : ℕ) → free_slots (replicate n none) ≡ n
unfolding free_slots
free_slots-replicate zero = refl
free_slots-replicate (suc n) = ap suc (free_slots-replicate n)

pub no_strings : (n i : ℕ) (k : List ℕ) → get_elem? (replicate n none) i ≢ some (some k)
no_strings zero i k h = absurd (cc)
no_strings (suc n) zero k h = absurd (cc)
no_strings (suc n) (suc i) k h = no_strings n i k h

pub all_held :
    (slots : Slots) (p : ℕ)
    → free_slots slots ≡ 0
    → p < length slots
    → (k : List ℕ) × Holds slots p k
unfolding free_slots
all_held [] p full small = absurd (omega arith)
all_held (none ∷ slots) p full small = absurd (omega arith)
all_held (some k ∷ slots) zero full small = (k, refl)
all_held (some k ∷ slots) (suc p) full small = all_held slots p full (omega arith)

pub slot-cases :
    (slots : Slots) (p : ℕ)
    → p < length slots
    → (get_elem? slots p ≡ some none) ⊎ ((k : List ℕ) × Holds slots p k)
slot-cases [] p h = absurd (omega arith)
slot-cases (none ∷ slots) zero h = inl refl
slot-cases (some k ∷ slots) zero h = inr (k, refl)
slot-cases (s ∷ slots) (suc p) h = slot-cases slots p (omega arith)

pub place_loop-free :
    (n count idx j : ℕ) (key : List ℕ) (slots : Slots)
    → get_elem? slots ((idx + j) % count) ≡ some none
    → place_loop (suc n) count idx j key slots ≡ set slots ((idx + j) % count) (some key)
unfolding place_loop
place_loop-free n count idx j key slots e =
    let later = place_loop n count idx (suc j) key slots in
    ap
      (λ (x : Option (Option (List ℕ))). elim x as (λ y. Slots) [
        | none ↦ later
        | some s ↦ elim s [ none ↦ set slots ((idx + j) % count) (some key) | some k ↦ later ]
      ])
      e

pub place_loop-held :
    (n count idx j : ℕ) (key k : List ℕ) (slots : Slots)
    → Holds slots ((idx + j) % count) k
    → place_loop (suc n) count idx j key slots ≡ place_loop n count idx (suc j) key slots
unfolding place_loop
place_loop-held n count idx j key k slots e =
    let later = place_loop n count idx (suc j) key slots in
    ap
      (λ (x : Option (Option (List ℕ))). elim x as (λ y. Slots) [
        | none ↦ later
        | some s ↦ elim s [ none ↦ set slots ((idx + j) % count) (some key) | some k ↦ later ]
      ])
      e

-- Every slot is met by a search from `idx`.
pub round_of :
    (idx count p : ℕ) → idx < count → p < count → (j : ℕ) × (j < count) × ((idx + j) % count ≡ p)
round_of idx count p h k = elim (Bool-cases (ltb p idx)) [
  | inl e ↦
      let l = ltb→lt p idx e in
      (
        p + count - idx,
        omega arith,
        mod-eq-sub-mod {n = idx + (p + count - idx)} {m = count} (omega arith)
            ∙ ap (λ t. t % count) (omega arith)
            ∙ mod-eq_of_lt k,
      )
  | inr e ↦
      let l : idx ≤ p = ground arith in
      (p - idx, omega arith, ap (λ t. t % count) (omega arith) ∙ mod-eq_of_lt k)
]

AllHeld-suc :
    (count : ℕ) (slots : Slots) (idx i : ℕ) (k : List ℕ)
    → AllHeld count slots idx i
    → Holds slots ((idx + i) % count) k
    → AllHeld count slots idx (suc i)
AllHeld-suc count slots idx i k before h j small = elim (Bool-cases (ltb j i)) [
  | inl e ↦ before j (ltb→lt j i e)
  | inr e ↦
      let same : j ≡ i = ground arith in (k, ap (λ t. get_elem? slots ((idx + t) % count)) same ∙ h)
]

-- One key is placed, as long as there is a free slot that the search has not passed.
pub place_loop-IsMet :
    (n count idx j : ℕ) (key : List ℕ) (slots : Slots)
    → length slots ≡ count
    → n + j ≡ count
    → AllHeld count slots idx j
    → (f : ℕ) → j ≤ f
    → f < count
    → get_elem? slots ((idx + f) % count) ≡ some none
    → let slots' = place_loop n count idx j key slots in
      Extends slots slots'
      × (suc (free_slots slots') ≡ free_slots slots)
      × IsMet count idx key slots'
place_loop-IsMet zero count idx j key slots len total before f low high free = absurd (omega arith)
place_loop-IsMet (suc n) count idx j key slots len total before f low high free =
    let p = (idx + j) % count in
    let small : p < length slots = omega (arith, mod-lt (idx + j) {m = count} (omega arith)) in
    elim (slot-cases slots p small) [
      | inl e ↦
          let slots' = set slots p (some key) in
          let held = set-Holds slots p key e in
          subst
            (λ t. Extends slots t × (suc (free_slots t) ≡ free_slots slots) × IsMet count idx key t)
            (sym (place_loop-free n count idx j key slots e))
            (
              (length-set slots p (some key), held),
              set-free_slots slots p key e,
              (
                j,
                omega arith,
                get_elem?-set_self slots p (some key) small,
                λ m l. let (k, h) = before m l in (k, held ((idx + m) % count) k h),
              ),
            )
      | inr q ↦
          let (k, h) = q in
          let other : j ≢ f =
            λ e. let same = ap (λ t. get_elem? slots ((idx + t) % count)) e in absurd (cc) in
          subst
            (λ t. Extends slots t × (suc (free_slots t) ≡ free_slots slots) × IsMet count idx key t)
            (sym (place_loop-held n count idx j key k slots h))
            (place_loop-IsMet n count idx (suc j) key slots len (omega arith)
              (AllHeld-suc count slots idx j k before h) f (omega arith) high free)
    ]
