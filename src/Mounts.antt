-- ===== src/Mounts.antt =====
-- common/filesystem.c: the tables of mounted filesystems, and the opening of a file by its path. The names are
-- one sequence of bytes, each name followed by a 0 byte, and a filesystem is its address, 0 for an empty one.
-- The appends to the tables are given the memory that they ask for.
pub mod Resolve
mod Examples
use libtwilight.Prelude.{
  ℕ, zero, suc, ◌+◌, Bool, ◌&&◌, not, List, [], ◌∷◌, ◌++◌, Option, none, some, ltb, ◌==◌,
  if◌then◌else◌, length, get_or, drop,
}
use libtwilight.Prelude.Int.{ℤ, pos, negsuc}
use libtwilight.File.{File, FileTable, add_file}

-- `_g_mount_name_table` and `_g_mount_fs_table`.
pub record Mounts : Type 0 where
  pub names : List ℕ
  pub filesystems : List ℕ

-- `TW_MountFilesystem`, of a path without its final 0.
pub mount_filesystem : Mounts → ℕ → List ℕ → ℤ × Mounts
mount_filesystem m fs [] = (negsuc 0, m)
mount_filesystem m fs (c ∷ path) = (
  pos 0,
  record { names = m.names ++ (c ∷ path) ++ (0 ∷ []); filesystems = m.filesystems ++ (fs ∷ []) },
)

-- The loop over `j`: how far the names from an index on and the path agree.
pub match_length : List ℕ → List ℕ → ℕ
match_length [] path = 0
match_length (c ∷ names) [] = 0
match_length (c ∷ names) (d ∷ path) =
    let rest = match_length names path in if (c == d) && not (d == 0) then suc rest else 0

-- `for (; i < size && data[i] != 0; i++);`
pub skip_name : List ℕ → List ℕ
skip_name [] = []
skip_name (c ∷ names) = let rest = skip_name names in if c == 0 then c ∷ names else rest

-- `for (; i < size && data[i] == 0; i++);`
pub skip_zeros : List ℕ → List ℕ
skip_zeros [] = []
skip_zeros (c ∷ names) = let rest = skip_zeros names in if c == 0 then rest else c ∷ names

-- The best match so far: its length, and its index if there is one.
pub record Best : Type 0 where
  pub highest_length : ℕ
  pub highest_index : Option ℕ

-- The loop over the names from an index on, with the `i++` of its header at the end of a round.
pub resolve_loop : ℕ → List ℕ → List ℕ → ℕ → Best → Option Best
unfolding match_length skip_name skip_zeros
resolve_loop fuel [] path idx best = some best
resolve_loop zero (c ∷ names) path idx best = none
resolve_loop (suc fuel) (c ∷ names) path idx best =
    let j = match_length (c ∷ names) path in
    let best' : Best =
      if ltb best.highest_length j
      then record { highest_length = j; highest_index = some idx }
      else best in
    resolve_loop fuel (drop 1 (skip_zeros (skip_name (drop j (c ∷ names))))) path (suc idx) best'

-- The filesystem, 0 if there is none, and the offset of its root in the path.
pub filesystem_of : Mounts → Best → ℕ × ℕ
filesystem_of m best =
    (elim best.highest_index [ none ↦ 0 | some i ↦ get_or m.filesystems i 0 ], best.highest_length)

-- `TW_ResolveFilesystemPath`.
pub resolve_filesystem_path : Mounts → List ℕ → Option (ℕ × ℕ)
unfolding resolve_loop filesystem_of
resolve_filesystem_path m path =
    elim (resolve_loop (length m.names) m.names path 0
      (record { highest_length = 0; highest_index = none })) [
        | none ↦ none
        | some best ↦ some (filesystem_of m best)
      ]

-- The end of `TW_OpenFileSync`: the table of files, and the file opened.
pub open_resolved :
    (ℕ → List ℕ → Option File) → FileTable → List ℕ → ℕ × ℕ → FileTable × Option File
open_resolved open_file table path (fs, offset) = elim (open_file fs (drop offset path)) [
  | none ↦ (table, none)
  | some file ↦ let added = add_file file table in (added.0, added.2)
]

-- `TW_OpenFileSync`; `open_file fs rest` is what the method `openFile` of the filesystem returns for the rest of
-- the path, if it has this method.
pub open_file_sync :
    (ℕ → List ℕ → Option File) → Mounts → FileTable → List ℕ → Option (FileTable × Option File)
unfolding resolve_filesystem_path open_resolved
open_file_sync open_file m table path = elim (resolve_filesystem_path m path) [
  | none ↦ none
  | some r ↦ some (open_resolved open_file table path r)
]
