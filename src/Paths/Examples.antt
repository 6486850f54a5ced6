-- ===== src/Paths/Examples.antt =====
-- The theorems about paths at a small list of paths.
use libtwilight.Prelude.{ℕ, ◌-◌, ◌≡◌, true, List, [], ◌∷◌, ◌++◌, codes, length, replicate, arith}
use libtwilight.Flex.{BufferStream}
use libtwilight.Flex.Stream.{IsValid, written}
use libtwilight.Paths.{is_matching, write_matching_paths}
use libtwilight.Paths.Matching.{
  IsAt, matching, transfer_all, up_to_zero, is_matching-IsAt, write_matching_paths-up_to_zero,
}
use libtwilight.Paths.Fitting.{to_buffer, fitting, write_matching_paths-to_buffer}

abbrev listed : List (List ℕ)
listed = codes "/sd" ∷ codes "/sd/a" ∷ codes "/sdx" ∷ codes "/s" ∷ []

-- A stream over six bytes.
abbrev six : BufferStream
six = record { buffer = replicate 6 0; offset = 0; capacity = 6 }

six-IsValid : IsValid six
six-IsValid = record { has_room = omega arith; inside = omega arith }

is_matching-IsAt_example :
    (is_matching (codes "/sd") (codes "/sd/a") ≡ true → IsAt (codes "/sd") (codes "/sd/a"))
    × (IsAt (codes "/sd") (codes "/sd/a") → is_matching (codes "/sd") (codes "/sd/a") ≡ true)
is_matching-IsAt_example = is_matching-IsAt (codes "/sd") (codes "/sd/a")

write_matching_paths-up_to_zero_example :
    let sent = up_to_zero to_buffer (matching (codes "/sd") listed) six in
    write_matching_paths to_buffer (codes "/sd") listed 0 six
    ≡ (length sent, transfer_all to_buffer sent six)
write_matching_paths-up_to_zero_example =
    write_matching_paths-up_to_zero to_buffer (codes "/sd") listed six

write_matching_paths-to_buffer_example :
    let (n, s') = write_matching_paths to_buffer (codes "/sd") listed 0 six in
    (n ≡ length (matching (codes "/sd") listed))
    × (written s'
        ≡ written six ++ fitting (six.capacity - six.offset) (matching (codes "/sd") listed))
write_matching_paths-to_buffer_example =
    write_matching_paths-to_buffer (codes "/sd") listed six six-IsValid (omega arith)
