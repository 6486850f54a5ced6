-- ===== src/Partitions.antt =====
-- common/filesystem.c, TW_EnumeratePartitions, on one device: every registered parser looks for partitions
-- in a partition, and those that it appends to the list are searched in turn.
pub mod Count
mod Examples
use libtwilight.Prelude.{ℕ, zero, suc, ◌+◌, List, [], ◌∷◌, Option, none, some, length, get_elem?}
use libtwilight.Prelude.Int.{ℤ, pos_part}

module _ (Partition : Type 0) where
  -- A registered parser: its result, and the list behind it.
  abbrev pub Parser : Type 0
  Parser = Partition → List Partition → ℤ × List Partition

  -- One call for a partition: the result and the list, or none where it does not return.
  abbrev pub Search : Type 0
  Search = Partition → List Partition → Option (ℕ × List Partition)

  -- `for (int j = 0; j < nFound; j++) …`, with the rounds left and the index of the next partition.
  pub search_found : Search → ℕ → ℕ → ℕ → List Partition → Option (ℕ × List Partition)
  search_found recur zero index total parts = some (total, parts)
  search_found recur (suc left) index total parts = elim (get_elem? parts index) [
    | none ↦ none
    | some cur ↦ elim (recur cur parts) [
      | none ↦ none
      | some r ↦ search_found recur left (suc index) (total + r.0) r.1
    ]
  ]

  -- The loop over the parsers.
  pub search_all :
      Search → List Parser → Partition → ℕ → List Partition → Option (ℕ × List Partition)
  unfolding search_found
  search_all recur [] outer total parts = some (total, parts)
  search_all recur (parse ∷ parsers) outer total parts =
      let (found, parts') = parse outer parts in
      elim (search_found recur (pos_part found) (length parts) total parts') [
        | none ↦ none
        | some r ↦ search_all recur parsers outer r.0 r.1
      ]

  -- `TW_EnumeratePartitions`, with calls nested up to the depth of the fuel.
  pub enumerate_partitions : ℕ → List Parser → Search
  unfolding search_all
  enumerate_partitions zero parsers outer parts = none
  enumerate_partitions (suc fuel) parsers outer parts =
      search_all (enumerate_partitions fuel parsers) parsers outer 0 parts
