-- ===== src/File/Add.antt =====
-- TW_AddFile: the search for a free slot from number 3 on.
use libtwilight.Prelude.{
  ℕ, zero, suc, ◌+◌, ◌-◌, ◌≤◌, ◌<◌, ◌≡◌, ◌≢◌, refl, sym, ap, ◌∙◌, List, [], ◌∷◌, Option, none, some,
  length, get_elem?, set, arith, ne→==, eq→==,
}
use mathlib.Core.Option
use mathlib.Core.Path.{subst}
use native.Mathlib.Decide.{dec_lt, ℕ_discrete}
use libtwilight.Prelude.Int.{ℤ, pos, negsuc}
use libtwilight.File.{
  File, FileTable, files_per_bucket, typed, get_slot, set_slot, find_free, add_loop, add_file,
}
use libtwilight.File.Table.{
  IsTable, IsFree, IsTaken, get_slot-below, get_slot-above, set_slot-below, set_slot-above,
  get_slot-set_slot_self, get_slot-set_slot_ne,
}

-- What the search for a free slot among slots found.
abbrev FoundFree : ℕ → List File → Option ℕ → Type 0
FoundFree start slots none = (j : ℕ) → start ≤ j → IsTaken (get_elem? slots j)
FoundFree start slots (some i) =
    (start ≤ i)
    × (i < length slots)
    × IsFree (get_elem? slots i)
    × ((j : ℕ) → start ≤ j → j < i → IsTaken (get_elem? slots j))

find_free_behind :
    (start : ℕ) (obj : File) (slots : List File) (found : Option ℕ)
    → FoundFree start slots found
    → FoundFree (suc start) (obj ∷ slots) (Option.map suc found)
find_free_behind start obj slots none h = λ j le. behind j le
  where
    behind : (j : ℕ) → suc start ≤ j → IsTaken (get_elem? (obj ∷ slots) j)
    behind zero le = absurd (omega arith)
    behind (suc j) le = h j (omega arith)
find_free_behind start obj slots (some i) (lo, hi, free, before) =
    (omega arith, omega arith, free, behind)
  where
    behind : (j : ℕ) → suc start ≤ j → j < suc i → IsTaken (get_elem? (obj ∷ slots) j)
    behind zero le lt = absurd (omega arith)
    behind (suc j) le lt = before j (omega arith) (omega arith)

find_free_taken :
    (obj : File) (slots : List File) (found : Option ℕ)
    → obj.file_type ≢ 0
    → FoundFree 0 slots found
    → FoundFree 0 (obj ∷ slots) (Option.map suc found)
find_free_taken obj slots none taken h = λ j le. behind j
  where
    behind : (j : ℕ) → IsTaken (get_elem? (obj ∷ slots) j)
    behind zero = taken
    behind (suc j) = h j (omega arith)
find_free_taken obj slots (some i) taken (lo, hi, free, before) =
    (omega arith, omega arith, free, behind)
  where
    behind : (j : ℕ) → 0 ≤ j → j < suc i → IsTaken (get_elem? (obj ∷ slots) j)
    behind zero le lt = taken
    behind (suc j) le lt = before j (omega arith) (omega arith)

find_free-FoundFree :
    (start : ℕ) (slots : List File) → FoundFree start slots (find_free start slots)
unfolding find_free
find_free-FoundFree start [] = λ j le. tt
find_free-FoundFree zero (obj ∷ slots) = elim (ℕ_discrete obj.file_type 0) [
  | yes e ↦
      rw (eq→== obj.file_type 0 e) (omega arith, omega arith, e, λ j lo hi. absurd (omega arith))
  | no ne ↦
      rw (ne→== obj.file_type 0 ne)
        (find_free_taken obj slots (find_free 0 slots) ne (find_free-FoundFree 0 slots))
]
find_free-FoundFree (suc start) (obj ∷ slots) =
    find_free_behind start obj slots (find_free start slots) (find_free-FoundFree start slots)

-- The same for a table: the table behind the search, and the number less `fd_offset`.
abbrev FoundSlot : ℕ → ℕ → File → FileTable → FileTable × Option ℕ → Type 0
FoundSlot fd_offset start file table (table', none) =
    (table' ≡ table) × ((j : ℕ) → start ≤ j → IsTaken (get_slot j table))
FoundSlot fd_offset start file table (table', some fd) =
    (fd_offset + start ≤ fd)
    × (table' ≡ (set_slot (fd - fd_offset) file table).0)
    × IsFree (get_slot (fd - fd_offset) table)
    × ((j : ℕ) → start ≤ j → j < fd - fd_offset → IsTaken (get_slot j table))

module _ (fd_offset start : ℕ) (file : File) (bucket : List File) (next : FileTable) where
  found_here :
      (i : ℕ)
      → length bucket ≡ files_per_bucket
      → FoundFree start bucket (some i)
      → FoundSlot fd_offset start file
          (bucket ∷ next)
          ((set_slot i file (bucket ∷ next)).0, some (fd_offset + i))
  found_here i full (lo, hi, free, before) =
      let number : fd_offset + i - fd_offset ≡ i = omega arith in
      rw number (
        omega arith,
        refl,
        subst IsFree (sym (get_slot-below i bucket next (omega arith))) free,
        λ j lo' lt.
            subst IsTaken (sym (get_slot-below j bucket next (omega arith))) (before j lo' lt),
      )

  IsTaken-here :
      (j : ℕ)
      → length bucket ≡ files_per_bucket
      → FoundFree start bucket none
      → start ≤ j
      → j < files_per_bucket
      → IsTaken (get_slot j (bucket ∷ next))
  IsTaken-here j full taken lo lt =
      subst IsTaken (sym (get_slot-below j bucket next lt)) (taken j lo)

  found_later :
      (next' : FileTable) (found : Option ℕ)
      → start ≤ files_per_bucket
      → length bucket ≡ files_per_bucket
      → FoundFree start bucket none
      → FoundSlot (fd_offset + files_per_bucket) 0 file next (next', found)
      → FoundSlot fd_offset start file (bucket ∷ next) (bucket ∷ next', found)
  found_later next' none le full taken (same, others) =
      (ap (λ (t : FileTable). bucket ∷ t) same, all)
    where
      all : (j : ℕ) → start ≤ j → IsTaken (get_slot j (bucket ∷ next))
      all j lo = elim (dec_lt j files_per_bucket) [
        | yes lt ↦ IsTaken-here j full taken lo lt
        | no ge ↦
            subst IsTaken (sym (get_slot-above j bucket next (omega arith)))
              (others (j - files_per_bucket) (omega arith))
      ]
  found_later next' (some fd) le full taken (lo, same, free, others) = (
    omega arith,
    ap (λ (t : FileTable). bucket ∷ t) (same ∙ ap (λ (n : ℕ). (set_slot n file next).0) number)
        ∙ sym (
            ap (λ (r : FileTable × Option File). r.0)
              (set_slot-above i file bucket next (omega arith))),
    subst IsFree
        (ap (λ (n : ℕ). get_slot n next) number ∙ sym (get_slot-above i bucket next (omega arith)))
        free,
    all,
  )
    where
      i : ℕ
      i = fd - fd_offset

      number : fd - (fd_offset + files_per_bucket) ≡ fd - fd_offset - files_per_bucket
      number = omega arith

      all : (j : ℕ) → start ≤ j → j < fd - fd_offset → IsTaken (get_slot j (bucket ∷ next))
      all j lo' lt = elim (dec_lt j files_per_bucket) [
        | yes lt' ↦ IsTaken-here j full taken lo' lt'
        | no ge ↦
            subst IsTaken (sym (get_slot-above j bucket next (omega arith)))
              (others (j - files_per_bucket) (omega arith) (omega arith))
      ]

add_loop-FoundSlot :
    (fd_offset start : ℕ) (file : File) (table : FileTable)
    → IsTable table
    → start ≤ files_per_bucket
    → FoundSlot fd_offset start file table (add_loop fd_offset start file table)
unfolding add_loop
add_loop-FoundSlot fd_offset start file [] v le = (refl, λ j lo. unfold get_slot in tt)
add_loop-FoundSlot fd_offset start file (bucket ∷ next) (full, v) le =
    by_search (find_free start bucket) (find_free-FoundFree start bucket)
      (add_loop-FoundSlot (fd_offset + files_per_bucket) 0 file next v (omega arith))
  where
    by_search :
        (found : Option ℕ)
        → FoundFree start bucket found
        → FoundSlot
            (fd_offset + files_per_bucket)
            0
            file
            next
            (add_loop (fd_offset + files_per_bucket) 0 file next)
        → FoundSlot fd_offset start file (bucket ∷ next) (elim found [
          | some i ↦ (set bucket i (typed file) ∷ next, some (fd_offset + i))
          | none ↦ (
            bucket ∷ (add_loop (fd_offset + files_per_bucket) 0 file next).0,
            (add_loop (fd_offset + files_per_bucket) 0 file next).1,
          )
        ])
    by_search none h later = found_later fd_offset start file bucket next _ _ le full h later
    by_search (some i) h later =
        subst
          (λ (t : FileTable).
            FoundSlot fd_offset start file (bucket ∷ next) (t, some (fd_offset + i)))
          (ap (λ (r : FileTable × Option File). r.0)
            (set_slot-below i file bucket next (omega (arith, h.1))))
          (found_here fd_offset start file bucket next i full h)

-- What TW_AddFile promises of its result.
abbrev pub Adds : File → FileTable → FileTable × ℤ × Option File → Type 0
Adds file table (table', negsuc n, obj) =
    (table' ≡ table) × (n ≡ 0) × (obj ≡ none) × ((j : ℕ) → 3 ≤ j → IsTaken (get_slot j table))
Adds file table (table', pos fd, obj) =
    (3 ≤ fd)
    × IsFree (get_slot fd table)
    × ((j : ℕ) → 3 ≤ j → j < fd → IsTaken (get_slot j table))
    × (obj ≡ some (typed file))
    × (get_slot fd table' ≡ (set_slot fd file table).1)
    × ((j : ℕ) → fd ≢ j → get_slot j table' ≡ get_slot j table)

-- TW_AddFile takes the lowest free number from 3 on: a lookup of it then gives the file, every other
-- number keeps what it had, and the result is that number. If no number from 3 on is free, it returns
-- -1 and no file, and the table stays as it was.
pub add_file-Adds :
    (file : File) (table : FileTable) → IsTable table → Adds file table (add_file file table)
unfolding add_file
add_file-Adds file table v =
    by_result (add_loop 0 3 file table) (add_loop-FoundSlot 0 3 file table v (omega arith))
  where
    by_result :
        (r : FileTable × Option ℕ)
        → FoundSlot 0 3 file table r
        → Adds file table
            (elim r.1 [ some fd ↦ (r.0, pos fd, some (typed file)) | none ↦ (r.0, negsuc 0, none) ])
    by_result (table', none) (same, taken) = (same, refl, refl, taken)
    by_result (table', some fd) (lo, same, free, taken) =
        let exact : fd - 0 ≡ fd = omega arith in
        let same' = same ∙ ap (λ (n : ℕ). (set_slot n file table).0) exact in
        (
          lo,
          subst (λ (n : ℕ). IsFree (get_slot n table)) exact free,
          λ j le lt. taken j le (omega arith),
          refl,
          ap (get_slot fd) same' ∙ get_slot-set_slot_self fd file table v,
          λ j ne. ap (get_slot j) same' ∙ get_slot-set_slot_ne fd j file table ne,
        )
