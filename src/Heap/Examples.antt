-- ===== src/Heap/Examples.antt =====
-- The theorems about the heap at one of 256 bytes with three blocks.
use libtwilight.Prelude.{
  ℕ, ◌+◌, ◌%◌, ◌≤◌, ◌≡◌, ◌≢◌, refl, inl, inr, List, [], ◌∷◌, some, arith, ◌==◌, if◌then◌else◌,
}
use libtwilight.Prelude.Int.{pos}
use libtwilight.Heap.{Headers, Allocator, append_block, allocate, free, inner_size}
use libtwilight.Heap.Chain.{Block, IsValid}
use libtwilight.Heap.Allocate.{AllBelow, new_block, allocate-IsValid}
use libtwilight.Heap.Free.{free-IsValid}

abbrev first : Block
first = record { header = 4096; end = 4112 }

abbrev second : Block
second = record { header = 4112; end = 4132 }

abbrev third : Block
third = record { header = 4132; end = 4144 }

abbrev heap : Allocator
heap = record { capacity = 256; start_addr = 4096; first = 4096; last = 4132 }

abbrev blocks : List Block
blocks = third ∷ second ∷ first ∷ []

-- The headers with `freed` added to the `prev` of the second block.
abbrev headers : ℕ → Headers
headers freed = record {
  prev = λ x. if x == 4112 then 4096 + freed else if x == 4132 then 4112 else 0;
  next = λ x. if x == 4096 then 4112 else if x == 4112 then 4132 else if x == 4132 then 4144 else 0;
}

in_use : IsValid heap (headers 0) blocks
in_use = record {
  positive = omega arith;
  aligned = refl;
  starts = refl;
  fits = omega arith;
  newest = refl;
  inside = omega arith;
  chain = (
    omega arith,
    refl,
    omega arith,
    refl,
    refl,
    inl refl,
    (
      omega arith,
      refl,
      omega arith,
      refl,
      refl,
      inl refl,
      (omega arith, refl, omega arith, refl, refl, inl refl, tt),
    ),
  );
}

one_freed : IsValid heap (headers 1) blocks
one_freed = record {
  positive = omega arith;
  aligned = refl;
  starts = refl;
  fits = omega arith;
  newest = refl;
  inside = omega arith;
  chain = (
    omega arith,
    refl,
    omega arith,
    refl,
    refl,
    inl refl,
    (
      omega arith,
      refl,
      omega arith,
      refl,
      refl,
      inr refl,
      (omega arith, refl, omega arith, refl, refl, inl refl, tt),
    ),
  );
}

allocate-IsValid_example :
    let b = new_block 4096 blocks 10 in
    let (a', h') = append_block heap (headers 0) b.header b.end in
    (allocate 9 (heap ∷ []) (headers 0) (pos 5) (pos 2) ≡ some (a' ∷ [], h', 4152))
    × IsValid a' h' (b ∷ blocks)
    × (4152 + 10 ≤ b.end)
    × (4152 % 4 ≡ 0)
    × AllBelow b.header blocks
unfolding inner_size
allocate-IsValid_example =
    allocate-IsValid 9 heap [] (headers 0) blocks (pos 5) (pos 2) in_use (omega arith) (omega arith)

free-IsValid_example :
    let h' = free (heap ∷ []) (headers 0) 4120 in
    IsValid heap h' blocks
    × (h'.prev 4112 ≡ 4097)
    × ((x : ℕ) → x ≢ 4112 → h'.prev x ≡ (headers 0).prev x)
    × ((x : ℕ) → h'.next x ≡ (headers 0).next x)
free-IsValid_example = free-IsValid heap [] (headers 0) (third ∷ []) second (first ∷ []) in_use refl
