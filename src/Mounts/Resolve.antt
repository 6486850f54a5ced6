-- ===== src/Mounts/Resolve.antt =====
-- common/filesystem.c, TW_ResolveFilesystemPath: the filesystem that a path leads to.
use libtwilight.Prelude.{
  ℕ, zero, suc, ◌≤◌, ◌≡◌, ◌≢◌, refl, ap, ap₂, sym, ◌∙◌, arith, ◌&&◌, not, List, [], ◌∷◌, ◌++◌,
  append_assoc, Option, none, some, length, length-drop, drop, ltb, lt→ltb, ◌==◌, eq→==, ne→==,
  if◌then◌else◌,
}
use libtwilight.Mounts.{
  Mounts, Best, mount_filesystem, match_length, skip_name, skip_zeros, resolve_loop, filesystem_of,
  resolve_filesystem_path, open_resolved, open_file_sync,
}
use libtwilight.File.{File, FileTable, add_file}

abbrev pub AllNonzero : List ℕ → Type 0
AllNonzero [] = Unit
AllNonzero (c ∷ cs) = (c ≢ 0) × AllNonzero cs

skip_name-le : (names : List ℕ) → length (skip_name names) ≤ length names
unfolding skip_name
skip_name-le [] = omega arith
skip_name-le (c ∷ names) = let ih = skip_name-le names in ground arith

skip_zeros-le : (names : List ℕ) → length (skip_zeros names) ≤ length names
unfolding skip_zeros
skip_zeros-le [] = omega arith
skip_zeros-le (c ∷ names) = let ih = skip_zeros-le names in ground arith

-- The loop ends within as many rounds as there are bytes.
resolve_loop-ends :
    (fuel : ℕ) (names path : List ℕ) (idx : ℕ) (best : Best)
    → length names ≤ fuel
    → (r : Best) × (resolve_loop fuel names path idx best ≡ some r)
unfolding resolve_loop
resolve_loop-ends fuel [] path idx best h = (best, refl)
resolve_loop-ends zero (c ∷ names) path idx best h = absurd (omega arith)
resolve_loop-ends (suc fuel) (c ∷ names) path idx best h =
    let j = match_length (c ∷ names) path in
    let left = skip_zeros (skip_name (drop j (c ∷ names))) in
    resolve_loop-ends fuel (drop 1 left) path (suc idx) _ (
      omega (
        arith,
        length-drop 1 left,
        skip_zeros-le (skip_name (drop j (c ∷ names))),
        skip_name-le (drop j (c ∷ names)),
        length-drop j (c ∷ names),
      ))

-- The two have no first byte in common.
abbrev pub IsApart : List ℕ → List ℕ → Type 0
IsApart (c ∷ cs) (d ∷ ds) = c ≢ d
IsApart cs ds = Unit

match_length-apart :
    (own rest : List ℕ)
    → AllNonzero rest
    → IsApart own rest
    → match_length (own ++ (0 ∷ [])) rest ≡ 0
unfolding match_length
match_length-apart [] [] k apart = refl
match_length-apart [] (d ∷ rest) (nz, k) apart =
    ap (λ b. if b && not (d == 0) then suc (match_length [] rest) else 0)
      (ne→== 0 d (λ e. nz (sym e)))
match_length-apart (c ∷ own) [] k apart = refl
match_length-apart (c ∷ own) (d ∷ rest) k apart =
    ap (λ b. if b && not (d == 0) then suc (match_length (own ++ (0 ∷ [])) rest) else 0)
      (ne→== c d apart)

-- A name agrees with a path as far as their common part goes, since the path has no 0 byte.
match_length-common :
    (common own rest : List ℕ)
    → AllNonzero common
    → AllNonzero rest
    → IsApart own rest
    → match_length (common ++ (own ++ (0 ∷ []))) (common ++ rest) ≡ length common
unfolding match_length
match_length-common [] own rest h k apart = match_length-apart own rest k apart
match_length-common (c ∷ common) own rest (nz, h) k apart =
    let left = match_length (common ++ (own ++ (0 ∷ []))) (common ++ rest) in
    ap₂ (λ b b'. if b && not b' then suc left else 0) (eq→== c c refl) (ne→== c 0 nz)
    ∙ ap suc (match_length-common common own rest h k apart)

drop-append : (xs ys : List ℕ) → drop (length xs) (xs ++ ys) ≡ ys
drop-append [] ys = refl
drop-append (x ∷ xs) ys = drop-append xs ys

skip_name-end : (own : List ℕ) → AllNonzero own → skip_name (own ++ (0 ∷ [])) ≡ 0 ∷ []
unfolding skip_name
skip_name-end [] h = refl
skip_name-end (c ∷ own) (nz, h) =
    ap (λ b. if b then (c ∷ own) ++ (0 ∷ []) else skip_name (own ++ (0 ∷ []))) (ne→== c 0 nz)
    ∙ skip_name-end own h

nothing_left :
    (common own : List ℕ)
    → AllNonzero own
    → drop 1 (skip_zeros (skip_name (drop (length common) (common ++ (own ++ (0 ∷ [])))))) ≡ []
unfolding skip_zeros
nothing_left common own h =
    ap (λ l. drop 1 (skip_zeros l))
      (ap skip_name (drop-append common (own ++ (0 ∷ []))) ∙ skip_name-end own h)

-- The tables when the program starts.
abbrev pub no_mounts : Mounts
no_mounts = record { names = []; filesystems = [] }

-- A name `common ++ own` that is mounted alone, and a path `common ++ rest` that agrees with it up to there.
module _ (fs c : ℕ) (common own rest : List ℕ) (common_bytes : AllNonzero (c ∷ common))
    (own_bytes : AllNonzero own) (rest_bytes : AllNonzero rest) (apart : IsApart own rest) where
  abbrev mounted : Mounts
  mounted = (mount_filesystem no_mounts fs ((c ∷ common) ++ own)).1

  abbrev whole_path : List ℕ
  whole_path = (c ∷ common) ++ rest

  names_of : mounted.names ≡ (c ∷ common) ++ (own ++ (0 ∷ []))
  unfolding mount_filesystem
  names_of = append_assoc (c ∷ common) own (0 ∷ [])

  resolve_filesystem_path-common :
      resolve_filesystem_path mounted whole_path ≡ some (fs, suc (length common))
  unfolding resolve_filesystem_path resolve_loop filesystem_of mount_filesystem
  resolve_filesystem_path-common =
      let table = common ++ (own ++ (0 ∷ [])) in
      let start : Best = record { highest_length = 0; highest_index = none } in
      let size = suc (length common) in
      let best : ℕ → Best =
        λ j. if ltb 0 j then record { highest_length = j; highest_index = some 0 } else start in
      let end_of : Option Best → Option (ℕ × ℕ) =
        λ x. elim x [ none ↦ none | some b ↦ some (filesystem_of mounted b) ] in
      let after : ℕ → List ℕ → Option (ℕ × ℕ) =
        λ j left. end_of (resolve_loop (length table) left whole_path 1 (best j)) in
      let left_of : ℕ → List ℕ = λ j. drop 1 (skip_zeros (skip_name (drop j (c ∷ table)))) in
      ap (λ names. end_of (resolve_loop (length names) names whole_path 0 start)) names_of
      ∙ ap (λ j. after j (left_of j))
          (match_length-common (c ∷ common) own rest common_bytes rest_bytes apart)
      ∙ ap (after size) (nothing_left (c ∷ common) own own_bytes)
      ∙ ap
          (λ b.
            end_of (
              some (if b then record { highest_length = size; highest_index = some 0 } else start)))
          (lt→ltb 0 size (omega arith))

  -- `TW_OpenFileSync` when one name is mounted and shares at least its first byte with the path: the method
  -- `openFile` of that filesystem is given what the path has behind the longest common part of the two, and
  -- the file that it returns is added to the table of files. It does not matter whether the common part is the
  -- whole name or ends at a slash, so that a path need not lie below the name. Neither has a 0 byte.
  pub open_file_sync-mount :
      (open_file : ℕ → List ℕ → Option File) (table : FileTable) (file : File)
      → open_file fs rest ≡ some file
      → open_file_sync open_file mounted table whole_path
        ≡ some ((add_file file table).0, (add_file file table).2)
  unfolding open_file_sync open_resolved
  open_file_sync-mount open_file table file opens =
      let finish : Option File → FileTable × Option File = λ x. elim x [
        | none ↦ (table, none)
        | some f ↦ ((add_file f table).0, (add_file f table).2)
      ] in
      ap
        (λ (x : Option (ℕ × ℕ)). elim x as (λ y. Option (FileTable × Option File)) [
          | none ↦ none
          | some r ↦ some (open_resolved open_file table whole_path r)
        ])
        resolve_filesystem_path-common
      ∙ ap (λ l. some (finish (open_file fs l))) (drop-append (c ∷ common) rest)
      ∙ ap (λ x. some (finish x)) opens

-- When nothing is mounted, nothing is opened, since an empty filesystem has no method `openFile`.
open_file_sync-none :
    (open_file : ℕ → List ℕ → Option File) (table : FileTable) (path : List ℕ)
    → open_file 0 path ≡ none
    → open_file_sync open_file no_mounts table path ≡ some (table, none)
unfolding open_file_sync open_resolved resolve_filesystem_path resolve_loop filesystem_of
open_file_sync-none open_file table path refuses =
    ap
      (λ (x : Option File). some (elim x as (λ y. FileTable × Option File) [
        | none ↦ (table, none)
        | some f ↦ ((add_file f table).0, (add_file f table).2)
      ]))
      refuses
