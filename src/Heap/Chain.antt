-- ===== src/Heap/Chain.antt =====
-- The chain of the blocks of one allocator, newest first, and where the next block goes.
use libtwilight.Prelude.{
  ℕ, ◌+◌, ◌%◌, ◌^◌, ◌≤◌, ◌<◌, ◌≡◌, ◌⊎◌, refl, List, [], ◌∷◌, ◌++◌, arith, true, false, ltb, le→ltb,
  lt→ltb, ◌==◌, ne→==,
}
use libtwilight.Heap.{Headers, Allocator, make_heap_allocator, put}

-- A block: the address of its header, and its end, which is where the next header goes.
pub record Block : Type 0 where
  pub header : ℕ
  pub end : ℕ

abbrev pub last_of : List Block → ℕ
last_of [] = 0
last_of (b ∷ blocks) = b.header

abbrev pub end_of : ℕ → List Block → ℕ
end_of first [] = first
end_of first (b ∷ blocks) = b.end

-- The headers hold these blocks, one behind the other from `first` on; a freed block has an odd `prev`.
abbrev pub IsChain : Headers → ℕ → List Block → Type 0
IsChain h first [] = Unit {0}
IsChain h first (b ∷ blocks) =
    (0 < b.header)
    × (b.header ≡ end_of first blocks)
    × (b.header + 8 ≤ b.end)
    × (b.end % 4 ≡ 0)
    × (h.next b.header ≡ b.end)
    × ((h.prev b.header ≡ last_of blocks) ⊎ (h.prev b.header ≡ last_of blocks + 1))
    × IsChain h first blocks

-- An allocator with its blocks.
pub record IsValid (a : Allocator) (h : Headers) (blocks : List Block) : Type 0 where
  pub positive : 0 < a.first
  pub aligned : a.first % 4 ≡ 0
  pub starts : a.start_addr ≡ a.first
  pub fits : a.start_addr + a.capacity < 2 ^ 32
  pub newest : a.last ≡ last_of blocks
  pub inside : end_of a.first blocks + 8 ≤ a.start_addr + a.capacity
  pub chain : IsChain h a.first blocks

module _ (h : Headers) (first : ℕ) where
  pub IsChain-behind :
      (newer blocks : List Block) → IsChain h first (newer ++ blocks) → IsChain h first blocks
  IsChain-behind [] blocks c = c
  IsChain-behind (b ∷ newer) blocks c = IsChain-behind newer blocks (c.6)

  pub first-le-end_of : (blocks : List Block) → IsChain h first blocks → first ≤ end_of first blocks
  first-le-end_of [] c = omega arith
  first-le-end_of (b ∷ blocks) c = omega (arith, first-le-end_of blocks (c.6))

  -- The end of older blocks is at or below the end of all, and below it by a header if there is a newer one.
  pub end_of-le :
      (newer blocks : List Block)
      → IsChain h first (newer ++ blocks)
      → end_of first blocks ≤ end_of first (newer ++ blocks)
  end_of-le [] blocks c = omega arith
  end_of-le (b ∷ newer) blocks c = omega (arith, end_of-le newer blocks (c.6))

  pub end_of_aligned :
      (blocks : List Block) → first % 4 ≡ 0 → IsChain h first blocks → end_of first blocks % 4 ≡ 0
  end_of_aligned [] e c = e
  end_of_aligned (b ∷ blocks) e c = c.3

-- Words written at or above the end of the chain leave it as it is.
pub IsChain-put :
    (h : Headers) (first : ℕ) (blocks : List Block) (address v w : ℕ)
    → end_of first blocks ≤ address
    → IsChain h first blocks
    → IsChain (record { prev = put h.prev address v; next = put h.next address w }) first blocks
IsChain-put h first [] address v w le c = tt
IsChain-put h first (b ∷ blocks) address v w le (pos, at, size, even, next, prev, c) =
    let other : (b.header == address) ≡ false = ne→== b.header address (omega arith) in
    (
      pos,
      at,
      size,
      even,
      rw other next,
      rw other prev,
      IsChain-put h first blocks address v w (omega arith) c,
    )

-- An allocator as TW_MakeHeapAllocator makes it over a range of whole words, in either order of its ends.
pub make_heap_allocator-IsValid :
    (h : Headers) (low high : ℕ)
    → 0 < low
    → low % 4 ≡ 0
    → low + 8 ≤ high
    → high < 2 ^ 32
    → IsValid (make_heap_allocator low high) h []
      × (make_heap_allocator high low ≡ make_heap_allocator low high)
unfolding make_heap_allocator
make_heap_allocator-IsValid h low high some_low aligned room fits =
    let first : ltb high low ≡ false = le→ltb high low (omega arith) in
    let second : ltb low high ≡ true = lt→ltb low high (omega arith) in
    (
      rw first (record {
        positive = some_low;
        aligned = aligned;
        starts = refl;
        fits = omega arith;
        newest = refl;
        inside = omega arith;
        chain = tt;
      }),
      rw (first, second) refl,
    )
