-- ===== src/Partitions/Examples.antt =====
-- The theorems about partitions with numbers for partitions.
use libtwilight.Prelude.{ℕ, ◌≡◌, refl, ◌++◌, [], ◌∷◌, some, ◌==◌, if◌then◌else◌}
use libtwilight.Prelude.Int.{pos, negsuc}
use libtwilight.Partitions.{Parser, enumerate_partitions, search_all, search_found}

-- Two partitions in partition 0, none in the others.
abbrev two_in_first : Parser ℕ
two_in_first outer parts = if outer == 0 then (pos 2, parts ++ 1 ∷ 2 ∷ []) else (negsuc 0, parts)

abbrev none_found : Parser ℕ
none_found outer parts = (negsuc 1, parts)

two_found : enumerate_partitions ℕ 2 (two_in_first ∷ none_found ∷ []) 0 [] ≡ some (0, 1 ∷ 2 ∷ [])
unfolding enumerate_partitions search_all search_found
two_found = refl
