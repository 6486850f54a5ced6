-- ===== src/Heap/Size.antt =====
-- TW_DetermineHeapObjectMaximumSize on a valid chain, freeing, and what reallocation makes of them.
use libtwilight.Prelude.{
  ℕ, ◌+◌, ◌-◌, ◌%◌, ◌^◌, ◌≤◌, ◌<◌, ◌≡◌, refl, sym, ◌∙◌, List, [], ◌∷◌, ◌++◌, some, arith, ◌==◌,
  ne→==, eq→==, bit_and, lt→ltb, false,
}
use libtwilight.Prelude.Int.{ℤ, pos, negsuc, pos_part}
use libtwilight.Prelude.Bits.{bit_and_mask}
use libtwilight.Heap.{
  Headers, Allocator, put, size_loop, maximum_size, inner_size, free, append_block, Reallocated,
  reallocate, reallocate_sized, move_object, is_fitting,
}
use libtwilight.Heap.Chain.{
  Block, last_of, end_of, IsChain, IsValid, IsChain-behind, first-le-end_of, end_of-le,
}
use libtwilight.Heap.Allocate.{rounded, new_block, allocate-IsValid}

-- The newest header is at or above any header of the chain.
last_of-le :
    (h : Headers) (first : ℕ) (newer : List Block) (c : Block) (older : List Block)
    → IsChain h first (newer ++ (c ∷ older))
    → c.header ≤ last_of (newer ++ (c ∷ older))
last_of-le h first [] c older v = omega arith
last_of-le h first (b ∷ newer) c older v =
    let up = end_of-le h first newer (c ∷ older) (v.6) in
    let size = (IsChain-behind h first newer (c ∷ older) (v.6)).2 in omega (arith, v.1, up, size)

-- A negative size is not enough for a positive one.
is_fitting-negsuc : (size : ℤ) (m : ℕ) → 0 < pos_part size → is_fitting size (negsuc m) ≡ false
is_fitting-negsuc (pos n) m h = refl
is_fitting-negsuc (negsuc n) m h = absurd (omega arith)

-- A block `b` of a chain with its successor `c`.
module _ (a : Allocator) (h : Headers) (newer : List Block) (c b : Block) (older : List Block)
    (v : IsValid a h (newer ++ (c ∷ b ∷ older))) where
  -- Where the headers of the two are, and what they hold.
  record Pair : Type 0 where
    low : 0 < b.header
    joined : c.header ≡ b.end
    step : b.header + 8 ≤ b.end
    next : h.next b.header ≡ c.header
    not_last : b.header < a.last
    top : b.end < 2 ^ 32
    room : b.end + 8 ≤ a.start_addr + a.capacity
    above : a.start_addr ≤ b.header

  pair : Pair
  pair =
      let two = IsChain-behind h a.first newer (c ∷ b ∷ older) v.chain in
      let up = last_of-le h a.first newer c (b ∷ older) v.chain in
      let limit = end_of-le h a.first newer (c ∷ b ∷ older) v.chain in
      let one = two.6 in
      record {
        low = one.0;
        joined = two.1;
        step = one.2;
        next = one.4 ∙ sym two.1;
        not_last = omega (arith, v.newest, up, two.1, one.2);
        top = omega (arith, v.inside, v.fits, limit, two.1, two.2);
        room = omega (arith, v.inside, limit, two.1, two.2);
        above = omega (arith, v.starts, one.1, first-le-end_of h a.first older (one.6));
      }

  -- The size that TW_DetermineHeapObjectMaximumSize gives an object whose successor is in use is -8, whatever
  -- the object's size is.
  pub maximum_size-used :
      h.prev c.header % 2 ≡ 0 → maximum_size a (b.header + 8) h ≡ some (h, negsuc 7)
  unfolding maximum_size size_loop
  maximum_size-used used =
      let p = pair in
      let at : (b.header + 8 + 2 ^ 32 - 8) % 2 ^ 32 ≡ b.header = omega (arith, p.top, p.step) in
      let bit : bit_and (h.prev c.header) 1 ≡ 0 =
        bit_and_mask 1 (h.prev c.header) ∙ omega (arith, used) in
      let word : (b.header + (2 ^ 32 - (b.header + 8))) % 2 ^ 32 ≡ 2 ^ 32 - 8 =
        omega (arith, p.top, p.step) in
      rw
        (
          at,
          p.next,
          ne→== c.header 0 (omega (arith, p.joined, p.step)),
          ne→== b.header a.last (omega (arith, p.not_last)),
          bit,
          word,
        )
        refl

  -- After the successor has been freed, the size reaches to the end of the allocator's memory, whatever
  -- blocks in use stand between: the first round joins the successor and sets its `next` to 0, at which the
  -- second round takes it for the newest block.
  maximum_size-freed :
      h.prev c.header % 2 ≡ 1
      → a.capacity < 2 ^ 31
      → (h' : Headers) × (maximum_size a (b.header + 8) h
          ≡ some (h', pos (a.start_addr + a.capacity - (b.header + 8) - 8)))
        × (h'.next b.header ≡ h.next c.header)
  unfolding maximum_size size_loop
  maximum_size-freed freed small =
      let p = pair in
      let merged : Headers = record {
        prev = put h.prev c.header 0;
        next = put (put h.next b.header (h.next c.header)) c.header 0;
      } in
      let at : (b.header + 8 + 2 ^ 32 - 8) % 2 ^ 32 ≡ b.header = omega (arith, p.top, p.step) in
      let bit : bit_and (h.prev c.header) 1 ≡ 1 =
        bit_and_mask 1 (h.prev c.header) ∙ omega (arith, freed) in
      let apart : (b.header == c.header) ≡ false =
        ne→== b.header c.header (omega (arith, p.joined, p.step)) in
      let word : (a.start_addr + a.capacity + (2 ^ 32 - (b.header + 8)) + (2 ^ 32 - 8)) % 2 ^ 32
          ≡ a.start_addr + a.capacity - (b.header + 8) - 8 =
        omega (arith, p.room, p.step, v.fits) in
      (
        merged,
        rw
            (
              at,
              p.next,
              ne→== c.header 0 (omega (arith, p.joined, p.step)),
              ne→== b.header a.last (omega (arith, p.not_last)),
              bit,
              eq→== c.header c.header refl,
              word,
              lt→ltb (a.start_addr + a.capacity - (b.header + 8) - 8) (2 ^ 31)
                  (omega (arith, p.above, small)),
            )
            refl,
        rw (apart, eq→== b.header b.header refl) refl,
      )

  -- An object whose successor is in use is always moved by a reallocation, also to a smaller size, and none of
  -- its bytes are copied: with room for the new size behind the newest block, the result is the new object.
  pub reallocate-copies_none :
      (fuel : ℕ) (rest : List Allocator) (count elem_size : ℤ)
      → h.prev c.header % 2 ≡ 0
      → let size = pos_part (inner_size count elem_size) in
        0 < size
        → let end = end_of a.first (newer ++ (c ∷ b ∷ older)) in
          end + 8 + rounded size + 8 ≤ a.start_addr + a.capacity
          → (r : Reallocated) × (reallocate fuel a rest h (b.header + 8) count elem_size ≡ some r)
            × (r.pointer ≡ end + 8)
            × (r.copied ≡ 0)
  unfolding reallocate reallocate_sized move_object
  reallocate-copies_none fuel rest count elem_size used some_bytes room =
      let blocks = newer ++ (c ∷ b ∷ older) in
      let same = (allocate-IsValid fuel a rest h blocks count elem_size v some_bytes room).0 in
      let n = new_block a.first blocks (pos_part (inner_size count elem_size)) in
      let (a', h') = append_block a h n.header n.end in
      (
        record {
          heap = a' ∷ rest;
          headers = free (a' ∷ rest) h' (b.header + 8);
          pointer = n.header + 8;
          copied = 0;
        },
        rw
            (
              maximum_size-used used,
              is_fitting-negsuc (inner_size count elem_size) 7 some_bytes,
              same,
              ne→== (n.header + 8) 0 (omega arith),
            )
            refl,
        refl,
        refl,
      )
