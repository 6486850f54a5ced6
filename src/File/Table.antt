-- ===== src/File/Table.antt =====
-- The table of open files: what a lookup gives behind TW_SetFile and TW_AddFile.
use libtwilight.Prelude.{
  ℕ, ◌-◌, ◌≤◌, ◌<◌, ◌≡◌, ◌≢◌, refl, sym, ap, ◌∙◌, List, [], ◌∷◌, Option, none, some, length,
  get_elem?, set, arith, lt→ltb, le→ltb, get_elem?-set_self, get_elem?-set_ne,
}
use native.Mathlib.Decide.{dec_lt}
use libtwilight.Prelude.Int.{ℤ, pos, negsuc}
use libtwilight.File.{
  File, FileTable, files_per_bucket, typed, get_slot, get_file, set_slot, set_file,
}

-- Every bucket has all its slots.
abbrev pub IsTable : FileTable → Type 0
IsTable [] = Unit {0}
IsTable (bucket ∷ next) = (length bucket ≡ files_per_bucket) × IsTable next

abbrev pub IsFree : Option File → Type 0
IsFree none = ⊥
IsFree (some f) = f.file_type ≡ 0

-- No free slot: a file is there, or the table has no such slot.
abbrev pub IsTaken : Option File → Type 0
IsTaken none = Unit {0}
IsTaken (some f) = f.file_type ≢ 0

pub get_slot-below :
    (fd : ℕ) (bucket : List File) (next : FileTable)
    → fd < files_per_bucket
    → get_slot fd (bucket ∷ next) ≡ get_elem? bucket fd
unfolding get_slot
get_slot-below fd bucket next h = rw (lt→ltb fd files_per_bucket h) refl

pub get_slot-above :
    (fd : ℕ) (bucket : List File) (next : FileTable)
    → files_per_bucket ≤ fd
    → get_slot fd (bucket ∷ next) ≡ get_slot (fd - files_per_bucket) next
unfolding get_slot
get_slot-above fd bucket next h = rw (le→ltb fd files_per_bucket h) refl

pub set_slot-below :
    (fd : ℕ) (file : File) (bucket : List File) (next : FileTable)
    → fd < files_per_bucket
    → set_slot fd file (bucket ∷ next) ≡ (set bucket fd (typed file) ∷ next, some (typed file))
unfolding set_slot
set_slot-below fd file bucket next h = rw (lt→ltb fd files_per_bucket h) refl

pub set_slot-above :
    (fd : ℕ) (file : File) (bucket : List File) (next : FileTable)
    → files_per_bucket ≤ fd
    → set_slot fd file (bucket ∷ next) ≡ (
      bucket ∷ (set_slot (fd - files_per_bucket) file next).0,
      (set_slot (fd - files_per_bucket) file next).1,
    )
unfolding set_slot
set_slot-above fd file bucket next h = rw (le→ltb fd files_per_bucket h) refl

pub get_slot-set_slot_self :
    (fd : ℕ) (file : File) (table : FileTable)
    → IsTable table
    → get_slot fd (set_slot fd file table).0 ≡ (set_slot fd file table).1
get_slot-set_slot_self fd file [] v = unfold set_slot in unfold get_slot in refl
get_slot-set_slot_self fd file (bucket ∷ next) (full, v) = elim (dec_lt fd files_per_bucket) [
  | yes h ↦ rw (set_slot-below fd file bucket next h) (
      get_slot-below fd (set bucket fd (typed file)) next h
      ∙ get_elem?-set_self bucket fd (typed file) (omega arith))
  | no h ↦ rw (set_slot-above fd file bucket next (omega arith)) (
      get_slot-above fd bucket (set_slot (fd - files_per_bucket) file next).0 (omega arith)
      ∙ get_slot-set_slot_self (fd - files_per_bucket) file next v)
]

pub get_slot-set_slot_ne :
    (fd other : ℕ) (file : File) (table : FileTable)
    → fd ≢ other
    → get_slot other (set_slot fd file table).0 ≡ get_slot other table
get_slot-set_slot_ne fd other file [] h = unfold set_slot in refl
get_slot-set_slot_ne fd other file (bucket ∷ next) h = elim (dec_lt fd files_per_bucket) [
  | yes lt ↦ rw (set_slot-below fd file bucket next lt) (elim (dec_lt other files_per_bucket) [
    | yes lt' ↦
        get_slot-below other (set bucket fd (typed file)) next lt'
        ∙ get_elem?-set_ne bucket (typed file) h
        ∙ sym (get_slot-below other bucket next lt')
    | no ge' ↦
        get_slot-above other (set bucket fd (typed file)) next (omega arith)
        ∙ sym (get_slot-above other bucket next (omega arith))
  ])
  | no ge ↦
      rw (set_slot-above fd file bucket next (omega arith)) (elim (dec_lt other files_per_bucket) [
        | yes lt' ↦
            get_slot-below other bucket (set_slot (fd - files_per_bucket) file next).0 lt'
            ∙ sym (get_slot-below other bucket next lt')
        | no ge' ↦
            get_slot-above other bucket (set_slot (fd - files_per_bucket) file next).0 (omega arith)
            ∙ get_slot-set_slot_ne (fd - files_per_bucket) (other - files_per_bucket) file next
                (omega arith)
            ∙ sym (get_slot-above other bucket next (omega arith))
      ])
]

-- Behind TW_SetFile, TW_GetFile of the same number gives what TW_SetFile returned, and TW_GetFile of
-- every other number gives what it gave before. This holds for all numbers, those below 0 and those
-- that the table does not have included.
pub get_file-set_file :
    (fd : ℤ) (file : File) (table : FileTable)
    → IsTable table
    → (get_file fd (set_file fd file table).0 ≡ (set_file fd file table).1)
      × ((other : ℤ)
          → fd ≢ other
          → get_file other (set_file fd file table).0 ≡ get_file other table)
unfolding get_file set_file
get_file-set_file (negsuc n) file table v = (refl, λ other h. refl)
get_file-set_file (pos fd) file table v = (get_slot-set_slot_self fd file table v, others)
  where
    others :
        (other : ℤ)
        → pos fd ≢ other
        → get_file other (set_slot fd file table).0 ≡ get_file other table
    others (negsuc n) h = refl
    others (pos other) h = get_slot-set_slot_ne fd other file table (λ e. h (ap pos e))
