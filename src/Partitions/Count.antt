-- ===== src/Partitions/Count.antt =====
-- The count that TW_EnumeratePartitions returns.
use libtwilight.Prelude.{
  ℕ, zero, suc, ◌+◌, ◌≡◌, refl, List, [], ◌∷◌, Option, none, some, length, get_elem?, arith,
}
use libtwilight.Prelude.Int.{pos_part}
use libtwilight.Partitions.{Parser, Search, search_found, search_all, enumerate_partitions}

-- A result that counts nothing.
abbrev pub CountsNone : {P : Type 0} → Option (ℕ × List P) → Type 0
CountsNone none = Unit {0}
CountsNone (some (n, parts)) = n ≡ 0

module _ (P : Type 0) (recur : Search P)
    (counts : (p : P) (parts : List P) → CountsNone (recur p parts)) where
  search_found-CountsNone :
      (left index total : ℕ) (parts : List P)
      → total ≡ 0
      → CountsNone (search_found P recur left index total parts)
  unfolding search_found
  search_found-CountsNone zero index total parts e = e
  search_found-CountsNone (suc left) index total parts e =
      at_index (get_elem? parts index)
        (λ n rest e'. search_found-CountsNone left (suc index) n rest e')
    where
      at_index :
          (found : Option P)
          → ((n : ℕ) (rest : List P)
              → n ≡ 0
              → CountsNone (search_found P recur left (suc index) n rest))
          → CountsNone (elim found [
            | none ↦ none
            | some cur ↦ elim (recur cur parts) [
              | none ↦ none
              | some r ↦ search_found P recur left (suc index) (total + r.0) r.1
            ]
          ])
      at_index none later = tt
      at_index (some cur) later = by_result (recur cur parts) (counts cur parts)
        where
          by_result :
              (r : Option (ℕ × List P))
              → CountsNone r
              → CountsNone (elim r [
                | none ↦ none
                | some r ↦ search_found P recur left (suc index) (total + r.0) r.1
              ])
          by_result none h = tt
          by_result (some (n, rest)) h = later (total + n) rest (omega arith)

  search_all-CountsNone :
      (parsers : List (Parser P)) (outer : P) (total : ℕ) (parts : List P)
      → total ≡ 0
      → CountsNone (search_all P recur parsers outer total parts)
  unfolding search_all
  search_all-CountsNone [] outer total parts e = e
  search_all-CountsNone (parse ∷ parsers) outer total parts e =
      next
        (search_found P recur (pos_part (parse outer parts).0) (length parts) total
          (parse outer parts).1)
        (search_found-CountsNone (pos_part (parse outer parts).0) (length parts) total
          (parse outer parts).1 e)
        (λ n rest e'. search_all-CountsNone parsers outer n rest e')
    where
      next :
          (r : Option (ℕ × List P))
          → CountsNone r
          → ((n : ℕ) (rest : List P) → n ≡ 0 → CountsNone (search_all P recur parsers outer n rest))
          → CountsNone (elim r [ none ↦ none | some r ↦ search_all P recur parsers outer r.0 r.1 ])
      next none h later = tt
      next (some (n, rest)) h later = later n rest h

-- TW_EnumeratePartitions never returns another number than 0, whatever the registered parsers find and
-- append and however deep the partitions are nested: it adds up the results of its own calls and never
-- counts a partition itself.
enumerate_partitions-CountsNone :
    (P : Type 0) (fuel : ℕ) (parsers : List (Parser P)) (outer : P) (parts : List P)
    → CountsNone (enumerate_partitions P fuel parsers outer parts)
unfolding enumerate_partitions
enumerate_partitions-CountsNone P zero parsers outer parts = tt
enumerate_partitions-CountsNone P (suc fuel) parsers outer parts =
    search_all-CountsNone P (enumerate_partitions P fuel parsers)
      (λ p rest. enumerate_partitions-CountsNone P fuel parsers p rest) parsers outer 0 parts refl

-- Parsers that find nothing, as those of common/mbr.c and common/fat32.c do, which return 0 or less.
abbrev pub AllFindNone : (P : Type 0) → List (Parser P) → Type 0
AllFindNone P [] = Unit {0}
AllFindNone P (parse ∷ parsers) =
    ((p : P) (parts : List P) → pos_part (parse p parts).0 ≡ 0) × AllFindNone P parsers

-- The list behind all parsers in turn.
abbrev pub after_all : (P : Type 0) → List (Parser P) → P → List P → List P
after_all P [] outer parts = parts
after_all P (parse ∷ parsers) outer parts = after_all P parsers outer (parse outer parts).1

search_all-AllFindNone :
    (P : Type 0) (recur : Search P) (parsers : List (Parser P)) (outer : P) (parts : List P)
    → AllFindNone P parsers
    → search_all P recur parsers outer 0 parts ≡ some (0, after_all P parsers outer parts)
unfolding search_all search_found
search_all-AllFindNone P recur [] outer parts h = refl
search_all-AllFindNone P recur (parse ∷ parsers) outer parts (h, hs) =
    step (pos_part (parse outer parts).0) (h outer parts)
      (search_all-AllFindNone P recur parsers outer (parse outer parts).1 hs)
  where
    step :
        (k : ℕ)
        → k ≡ 0
        → search_all P recur parsers outer 0 (parse outer parts).1
          ≡ some (0, after_all P parsers outer (parse outer parts).1)
        → (elim (search_found P recur k (length parts) 0 (parse outer parts).1) [
          | none ↦ none
          | some r ↦ search_all P recur parsers outer r.0 r.1
        ])
          ≡ some (0, after_all P parsers outer (parse outer parts).1)
    step zero e rest = rest
    step (suc k) e rest = absurd (omega arith)

-- With parsers whose results are 0 or less, as are those of common/mbr.c and common/fat32.c,
-- TW_EnumeratePartitions returns without calling itself: the result is 0, and each parser was called once,
-- in the order of their registration.
enumerate_partitions-AllFindNone :
    (P : Type 0) (fuel : ℕ) (parsers : List (Parser P)) (outer : P) (parts : List P)
    → AllFindNone P parsers
    → enumerate_partitions P (suc fuel) parsers outer parts
      ≡ some (0, after_all P parsers outer parts)
unfolding enumerate_partitions
enumerate_partitions-AllFindNone P fuel parsers outer parts h =
    search_all-AllFindNone P (enumerate_partitions P fuel parsers) parsers outer parts h
