-- ===== src/Mounts/Examples.antt =====
-- The theorem about opening by path at a concrete one.
use libtwilight.Prelude.{
  ℕ, ◌≡◌, refl, arith, List, [], Option, none, some, codes, ◌==◌, if◌then◌else◌,
}
use libtwilight.File.{File, add_file}
use libtwilight.Mounts.{mount_filesystem, open_file_sync}
use libtwilight.Mounts.Resolve.{no_mounts, open_file_sync-mount}

abbrev es : File
es = record { file_type = 3; fields = 11 }

-- The filesystem 77 opens every path.
abbrev open_any : ℕ → List ℕ → Option File
open_any fs rest = if fs == 77 then some es else none

-- The path /sda does not lie below the mounted name /sd/games.
open_file_sync-mount_example :
    open_file_sync open_any (mount_filesystem no_mounts 77 (codes "/sd/games")).1 [] (codes "/sda")
    ≡ some ((add_file es []).0, (add_file es []).2)
open_file_sync-mount_example =
    open_file_sync-mount 77 b'/' (codes "sd") (codes "/games") (codes "a") (omega arith)
      (omega arith) (omega arith) (omega arith) open_any [] es refl
