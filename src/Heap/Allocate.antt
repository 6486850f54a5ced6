-- ===== src/Heap/Allocate.antt =====
-- Allocation behind the newest block, and freeing.
use libtwilight.Prelude.{
  ℕ, ◌+◌, ◌*◌, ◌/◌, ◌%◌, ◌^◌, ◌≤◌, ◌<◌, ◌≡◌, inl, refl, List, [], ◌∷◌, some, arith, ne→==, eq→==,
  bit_and, le→ltb,
}
use libtwilight.Prelude.Int.{ℤ, pos_part}
use libtwilight.Prelude.Bits.{complement, bit_and_align}
use libtwilight.Heap.{
  Headers, Allocator, next_header, append_block, inner_size, allocate_loop, allocate,
}
use libtwilight.Heap.Chain.{
  Block, end_of, IsChain, IsValid, first-le-end_of, end_of_aligned, IsChain-put,
}

-- A size rounded up to whole words.
abbrev pub rounded : ℕ → ℕ
rounded size = (size + 3) / 4 * 4

-- The block for an object of `size` bytes behind these.
abbrev pub new_block : ℕ → List Block → ℕ → Block
new_block first blocks size = record {
  header = end_of first blocks;
  end = end_of first blocks + 8 + rounded size;
}

next_header-end_of :
    (a : Allocator) (h : Headers) (blocks : List Block)
    → IsValid a h blocks
    → next_header a h ≡ end_of a.first blocks
unfolding next_header
next_header-end_of a h [] v = rw (eq→== a.last 0 v.newest) refl
next_header-end_of a h (b ∷ blocks) v =
    let (below, at, size, even, next, _, _) = v.chain in
    rw (ne→== a.last 0 (omega (arith, v.newest, below)), v.newest) next

append_block-IsValid :
    (a : Allocator) (h : Headers) (blocks : List Block) (size : ℕ)
    → IsValid a h blocks
    → end_of a.first blocks + 8 + rounded size + 8 ≤ a.start_addr + a.capacity
    → let b = new_block a.first blocks size in
      let (a', h') = append_block a h b.header b.end in IsValid a' h' (b ∷ blocks)
unfolding append_block
append_block-IsValid a h blocks size v room =
    let low = first-le-end_of h a.first blocks v.chain in
    let even = end_of_aligned h a.first blocks v.aligned v.chain in
    record {
      positive = v.positive;
      aligned = v.aligned;
      starts = v.starts;
      fits = v.fits;
      newest = refl;
      inside = room;
      chain = (
        omega (arith, low, v.positive),
        refl,
        omega arith,
        omega (arith, even),
        rw (eq→== (end_of a.first blocks) (end_of a.first blocks) refl) refl,
        inl (rw (eq→== (end_of a.first blocks) (end_of a.first blocks) refl) v.newest),
        IsChain-put h a.first blocks (end_of a.first blocks) a.last _ (omega arith) v.chain,
      );
    }

allocate_loop-fits :
    (fuel : ℕ) (a : Allocator) (rest : List Allocator) (h : Headers) (hdr size : ℕ)
    → next_header a h ≡ hdr
    → a.start_addr + a.capacity < 2 ^ 32
    → hdr + 8 + rounded size + 8 ≤ a.start_addr + a.capacity
    → let (a', h') = append_block a h hdr (hdr + 8 + rounded size) in
      allocate_loop fuel (a ∷ rest) h size ≡ some (a' ∷ rest, h', hdr + 8)
unfolding allocate_loop
allocate_loop-fits fuel a rest h hdr size at fits room =
    let whole : bit_and (size + 3) (complement 32 3) ≡ rounded size =
      bit_and_align 2 30 (size + 3) (omega arith) in
    let start : (hdr + 8) % 2 ^ 32 ≡ hdr + 8 = omega arith in
    let next : (hdr + 8 + rounded size) % 2 ^ 32 ≡ hdr + 8 + rounded size = omega arith in
    let limit : (a.start_addr + a.capacity) % 2 ^ 32 ≡ a.start_addr + a.capacity = omega arith in
    let behind : (hdr + 8 + rounded size + 8) % 2 ^ 32 ≡ hdr + 8 + rounded size + 8 = omega arith in
    rw
      (
        at,
        start,
        whole,
        next,
        limit,
        behind,
        le→ltb (a.start_addr + a.capacity) (hdr + 8 + rounded size + 8) room,
      )
      refl

-- All these blocks end at or below `address`.
abbrev pub AllBelow : ℕ → List Block → Type 0
AllBelow address [] = Unit {0}
AllBelow address (b ∷ blocks) = (b.header + 8 ≤ b.end) × (b.end ≤ address) × AllBelow address blocks

chain-AllBelow :
    (h : Headers) (first address : ℕ) (blocks : List Block)
    → IsChain h first blocks
    → end_of first blocks ≤ address
    → AllBelow address blocks
chain-AllBelow h first address [] c le = tt
chain-AllBelow h first address (b ∷ blocks) c le =
    (c.2, le, chain-AllBelow h first address blocks (c.6) (omega (arith, c)))

-- When the object and a header behind it fit, an allocation of a positive size succeeds: the object starts
-- behind a new header at the end of the newest block, whole words are set aside for it, the chain of the
-- blocks is the old one with the new block, all of whose other blocks end at or below the new header, and
-- the other allocators are as they were.
pub allocate-IsValid :
    (fuel : ℕ) (a : Allocator) (rest : List Allocator) (h : Headers) (blocks : List Block)
    (count elem_size : ℤ)
    → IsValid a h blocks
    → let size = pos_part (inner_size count elem_size) in
      0 < size
      → end_of a.first blocks + 8 + rounded size + 8 ≤ a.start_addr + a.capacity
      → let b = new_block a.first blocks size in
        let (a', h') = append_block a h b.header b.end in
        (allocate fuel (a ∷ rest) h count elem_size ≡ some (a' ∷ rest, h', b.header + 8))
        × IsValid a' h' (b ∷ blocks)
        × (b.header + 8 + size ≤ b.end)
        × ((b.header + 8) % 4 ≡ 0)
        × AllBelow b.header blocks
allocate-IsValid fuel a rest h blocks count elem_size v some_bytes room = (
  whole,
  append_block-IsValid a h blocks (pos_part (inner_size count elem_size)) v room,
  omega arith,
  omega (arith, end_of_aligned h a.first blocks v.aligned v.chain),
  chain-AllBelow h a.first hdr blocks v.chain (omega arith),
)
  where
    hdr : ℕ
    hdr = end_of a.first blocks

    size : ℕ
    size = pos_part (inner_size count elem_size)

    whole :
        allocate fuel (a ∷ rest) h count elem_size
        ≡ some (
          (append_block a h hdr (hdr + 8 + rounded size)).0 ∷ rest,
          (append_block a h hdr (hdr + 8 + rounded size)).1,
          hdr + 8,
        )
    whole =
        unfold allocate in
        rw (ne→== size 0 (omega arith))
          (allocate_loop-fits fuel a rest h hdr size (next_header-end_of a h blocks v) v.fits room)
