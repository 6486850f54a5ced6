-- ===== src/File.antt =====
-- common/file.c: the table of open files, and the synchronous calls, each of which starts an
-- operation of the file's driver and waits on a future for its completion.
pub mod Table
pub mod Add
pub mod Sync
mod Examples
use libtwilight.Prelude.{
  ℕ, zero, suc, ◌+◌, ◌-◌, ◌*◌, ◌/◌, ◌%◌, ◌^◌, bit_and, Bool, List, [], ◌∷◌, ◌++◌, Option, none,
  some, ltb, ◌==◌, if◌then◌else◌, get_elem?, set,
}
use mathlib.Core.Option
use libtwilight.Prelude.Int.{ℤ, pos, negsuc}
use libtwilight.Future.{create, Action, reaching, act_all, Wake, Outcome, returned, waiting, await}

-- A `TwFile`: its type, 0 for a free slot of the table, and its other fields as one value.
pub record File : Type 0 where
  pub file_type : ℕ
  pub fields : ℕ

abbrev pub files_per_bucket : ℕ
files_per_bucket = 16

abbrev pub file_type_generic : ℕ
file_type_generic = 1

-- `_g_file_table`: the buckets, `next` by `next`.
abbrev pub FileTable : Type 0
FileTable = List (List File)

-- `if (!obj->type) obj->type = TW_FILE_TYPE_GENERIC`.
pub typed : File → File
typed file = if file.file_type == 0 then record file { file_type = file_type_generic } else file

-- The loop of `TW_GetFile`.
pub get_slot : ℕ → FileTable → Option File
get_slot fd [] = none
get_slot fd (bucket ∷ next) =
    let rest = get_slot (fd - files_per_bucket) next in
    if ltb fd files_per_bucket then get_elem? bucket fd else rest

-- `TW_GetFile`.
pub get_file : ℤ → FileTable → Option File
get_file (pos fd) table = get_slot fd table
get_file (negsuc n) table = none

-- The loop of `TW_SetFile`.
pub set_slot : ℕ → File → FileTable → FileTable × Option File
unfolding typed
set_slot fd file [] = ([], none)
set_slot fd file (bucket ∷ next) =
    let (next', obj) = set_slot (fd - files_per_bucket) file next in
    if ltb fd files_per_bucket
    then (set bucket fd (typed file) ∷ next, some (typed file))
    else (bucket ∷ next', obj)

-- `TW_SetFile`: the table, and the file that the result points at.
pub set_file : ℤ → File → FileTable → FileTable × Option File
set_file (pos fd) file table = set_slot fd file table
set_file (negsuc n) file table = (table, none)

-- The inner loop of `TW_AddFile`: the first free slot of a bucket from index `start` on.
pub find_free : ℕ → List File → Option ℕ
find_free start [] = none
find_free zero (obj ∷ slots) =
    let rest = find_free 0 slots in if obj.file_type == 0 then some 0 else Option.map suc rest
find_free (suc start) (obj ∷ slots) = Option.map suc (find_free start slots)

-- The outer loop: the first bucket is searched from `start` on, the others from their slot 0 on.
pub add_loop : ℕ → ℕ → File → FileTable → FileTable × Option ℕ
unfolding find_free typed
add_loop fd_offset start file [] = ([], none)
add_loop fd_offset start file (bucket ∷ next) =
    let (next', later) = add_loop (fd_offset + files_per_bucket) 0 file next in
    elim (find_free start bucket) [
      | some i ↦ (set bucket i (typed file) ∷ next, some (fd_offset + i))
      | none ↦ (bucket ∷ next', later)
    ]

-- `TW_AddFile`: the table, the number returned, and the file that `*fileOut` points at.
pub add_file : File → FileTable → FileTable × ℤ × Option File
unfolding add_loop typed
add_file file table =
    let (table', found) = add_loop 0 3 file table in
    elim found [ some fd ↦ (table', pos fd, some (typed file)) | none ↦ (table', negsuc 0, none) ]

-- `_tw_sync_io_completion_handler`, on a future, as an action of the thread or interrupt that calls it
-- with a 64-bit result.
pub completion : ℕ → Action
completion result =
    reaching (bit_and result 0xffffffff) (bit_and (result / 2 ^ 32 % 2 ^ 32) 0xffffffff)

-- A synchronous call: the driver is started on a new future, `before` happens to that until it
-- returns, and the call waits.
pub sync : List Action → List Wake → Outcome ℕ
sync before wakes = await (act_all (create 0 0) before) wakes

-- `(int)(resultError & 0xFFFFffff)`, as the bits of the `int`.
abbrev pub low_word : Outcome ℕ → Outcome ℕ
low_word (returned result_error) = returned (bit_and result_error 0xffffffff)
low_word waiting = waiting

-- `TW_ReadFileSync`, `TW_WriteFileSync`, `TW_IoctlFileSync`, `TW_IoctlvFileSync`, `TW_FlushFileSync` and
-- `TW_CloseFileSync`, which differ in the driver's function that they start.
pub low_sync : List Action → List Wake → Outcome ℕ
low_sync before wakes = low_word (sync before wakes)

-- `TW_SeekFileSync`: both words, as the bits of a `long long`.
pub seek_file_sync : List Action → List Wake → Outcome ℕ
seek_file_sync before wakes = sync before wakes
