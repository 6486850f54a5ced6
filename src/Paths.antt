-- ===== src/Paths.antt =====
-- common/filesystem.c, TW_WriteMatchingPaths: the paths of a list that lie at or below a path, written to a
-- stream one by one. Paths are lists of bytes other than 0; the byte before an empty path counts as 0.
pub mod Matching
pub mod Fitting
mod Examples
use libtwilight.Prelude.{
  ℕ, zero, suc, ◌+◌, ◌-◌, Bool, true, false, ◌&&◌, ◌||◌, List, [], ◌∷◌, ltb, ◌==◌, if◌then◌else◌,
  length, get_or,
}
use libtwilight.Prelude.Int.{ℤ, pos, negsuc}

-- The inner loop: no byte of `potential` differs from the byte of `path` at its index, if there is one.
pub start_matches : List ℕ → List ℕ → Bool
start_matches [] path = true
start_matches (c ∷ cs) [] = true
start_matches (c ∷ cs) (d ∷ ds) = let rest = start_matches cs ds in if c == d then rest else false

-- `path[pathLen-1] == '/'`.
abbrev pub ends_with_slash : List ℕ → Bool
ends_with_slash path = get_or path (length path - 1) 0 == b'/'

-- The condition under which a path is written.
pub is_matching : List ℕ → List ℕ → Bool
unfolding start_matches
is_matching path potential =
    let j = length potential in
    start_matches potential path
    && (j == length path
        || (ltb (length path) j
            && (ends_with_slash path || get_or potential (length path) 0 == b'/')))

-- `output->transfer(...) == 0`.
abbrev pub is_zero : ℤ → Bool
is_zero (pos n) = n == 0
is_zero (negsuc n) = false

-- `TW_WriteMatchingPaths` from the count `n_matches` on: the number returned, and the stream behind its calls
-- of `transfer`, which is the method of the stream.
pub write_matching_paths {ℓ} :
    {S : Type ℓ} → (S → List ℕ → S × ℤ) → List ℕ → List (List ℕ) → ℕ → S → ℕ × S
unfolding is_matching
write_matching_paths transfer path [] n_matches s = (n_matches, s)
write_matching_paths transfer path (p ∷ ps) n_matches s =
    let (after, result) = transfer s p in
    let skipped = write_matching_paths transfer path ps n_matches s in
    let written = write_matching_paths transfer path ps (suc n_matches) after in
    if is_matching path p
    then (if is_zero result then (suc n_matches, after) else written)
    else skipped
