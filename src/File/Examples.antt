-- ===== src/File/Examples.antt =====
-- The theorems about files at a table of one bucket and at a driver that completes late.
use libtwilight.Prelude.{◌≡◌, refl, [], ◌∷◌, false, arith, replicate, ◌%◌, ◌^◌, ◌-◌}
use libtwilight.Future.{Wake, waits, returned}
use libtwilight.File.{File, FileTable, add_file, completion, seek_file_sync, low_sync}
use libtwilight.File.Add.{Adds, add_file-Adds}
use libtwilight.File.Sync.{at_once, later, completed, sync-Completes}

abbrev free : File
free = record { file_type = 0; fields = 0 }

abbrev driver : File
driver = record { file_type = 5; fields = 77 }

-- Slots 0 to 2 and 4 are in use.
abbrev table : FileTable
table = (driver ∷ driver ∷ driver ∷ free ∷ driver ∷ replicate 11 free) ∷ []

add_file-Adds_example : Adds driver table (add_file driver table)
add_file-Adds_example = add_file-Adds driver table (refl, tt)

abbrev interrupt : Wake
interrupt = record { timed_out = false; actions = waits ∷ completion (2 ^ 64 - 3) ∷ [] }

sync-Completes_example :
    (seek_file_sync [] (interrupt ∷ []) ≡ returned (2 ^ 64 - 3))
    × (low_sync [] (interrupt ∷ []) ≡ returned ((2 ^ 64 - 3) % 2 ^ 32))
sync-Completes_example =
    sync-Completes (2 ^ 64 - 3) (omega arith)
      (later tt (at_once (completed (waits ∷ []) [] tt tt) []))
