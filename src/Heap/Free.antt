-- ===== src/Heap/Free.antt =====
-- TW_FreeHeapObject on a valid chain.
use libtwilight.Prelude.{
  ℕ, ◌+◌, ◌-◌, ◌*◌, ◌/◌, ◌%◌, ◌^◌, ◌≤◌, ◌≡◌, ◌≢◌, inr, refl, ap, ◌∙◌, List, [], ◌∷◌, ◌++◌, arith,
  ne→==, eq→==, bit_or, ltb, leb, lt→ltb, le→leb, true,
}
use libtwilight.Prelude.Bits.{bit_or_concat}
use libtwilight.Heap.{Headers, Allocator, put, free}
use libtwilight.Heap.Chain.{
  Block, last_of, end_of, IsChain, IsValid, IsChain-behind, first-le-end_of, end_of_aligned,
  end_of-le,
}

-- The headers with another `prev` at one address.
abbrev with_prev : Headers → ℕ → ℕ → Headers
with_prev h address v = record h { prev = put h.prev address v }

-- Below the address nothing changes.
IsChain-with_prev_above :
    (h : Headers) (first : ℕ) (blocks : List Block) (address v : ℕ)
    → end_of first blocks ≤ address
    → IsChain h first blocks
    → IsChain (with_prev h address v) first blocks
IsChain-with_prev_above h first [] address v le c = tt
IsChain-with_prev_above h first (b ∷ blocks) address v le (below, at, size, even, next, prev, c) = (
  below,
  at,
  size,
  even,
  next,
  rw (ne→== b.header address (omega arith)) prev,
  IsChain-with_prev_above h first blocks address v (omega arith) c,
)

IsChain-with_prev :
    (h : Headers) (first : ℕ) (newer : List Block) (b : Block) (older : List Block)
    → IsChain h first (newer ++ (b ∷ older))
    → IsChain (with_prev h b.header (last_of older + 1)) first (newer ++ (b ∷ older))
IsChain-with_prev h first [] b older (below, at, size, even, next, prev, c) = (
  below,
  at,
  size,
  even,
  next,
  inr (rw (eq→== b.header b.header refl) refl),
  IsChain-with_prev_above h first older b.header (last_of older + 1) (omega arith) c,
)
IsChain-with_prev h first (n ∷ newer) b older (below, at, size, even, next, prev, c) =
    let up = end_of-le h first newer (b ∷ older) c in
    let long = (IsChain-behind h first newer (b ∷ older) c).2 in
    (
      below,
      at,
      size,
      even,
      next,
      rw (ne→== n.header b.header (omega (arith, at, up, long))) prev,
      IsChain-with_prev h first newer b older c,
    )

-- Freeing the object of a block in use keeps the chain of the blocks valid and sets bit 0 of the block's
-- `prev`; no other word of the headers changes.
pub free-IsValid :
    (a : Allocator) (rest : List Allocator) (h : Headers) (newer : List Block) (b : Block)
    (older : List Block)
    → IsValid a h (newer ++ (b ∷ older))
    → h.prev b.header ≡ last_of older
    → let h' = free (a ∷ rest) h (b.header + 8) in
      IsValid a h' (newer ++ (b ∷ older))
      × (h'.prev b.header ≡ last_of older + 1)
      × ((x : ℕ) → x ≢ b.header → h'.prev x ≡ h.prev x)
      × ((x : ℕ) → h'.next x ≡ h.next x)
unfolding free
free-IsValid a rest h newer b older v used =
    let one = IsChain-behind h a.first newer (b ∷ older) v.chain in
    let up = end_of-le h a.first newer (b ∷ older) v.chain in
    let low = first-le-end_of h a.first older (one.6) in
    let even = last_of_even older (one.6) in
    let at : (b.header + 8 + 2 ^ 32 - 8) % 2 ^ 32 ≡ b.header =
      omega (arith, up, one.2, v.inside, v.fits) in
    let limit : (a.start_addr + a.capacity) % 2 ^ 32 ≡ a.start_addr + a.capacity =
      omega (arith, v.fits) in
    let from : leb a.start_addr (b.header + 8) ≡ true =
      le→leb a.start_addr (b.header + 8) (omega (arith, low, one.1, v.starts)) in
    let upto : ltb (b.header + 8) (a.start_addr + a.capacity) ≡ true =
      lt→ltb (b.header + 8) (a.start_addr + a.capacity) (omega (arith, up, one.2, v.inside)) in
    let mark : bit_or (h.prev b.header) 1 ≡ last_of older + 1 =
      rw used (set_lowest (last_of older) even) in
    rw (at, limit, from, upto, mark)
      (
        record {
          positive = v.positive;
          aligned = v.aligned;
          starts = v.starts;
          fits = v.fits;
          newest = v.newest;
          inside = v.inside;
          chain = IsChain-with_prev h a.first newer b older v.chain;
        },
        rw (eq→== b.header b.header refl) refl,
        λ x ne. rw (ne→== x b.header ne) refl,
        λ x. refl,
      )
  where
    set_lowest : (x : ℕ) → x % 2 ≡ 0 → bit_or x 1 ≡ x + 1
    set_lowest x e =
        let half : x ≡ x / 2 * 2 ^ 1 = omega arith in
        ap (λ (y : ℕ). bit_or y 1) half ∙ bit_or_concat 1 (x / 2) 1 (omega arith) ∙ omega arith

    last_of_even : (blocks : List Block) → IsChain h a.first blocks → last_of blocks % 2 ≡ 0
    last_of_even [] c = refl
    last_of_even (o ∷ blocks) c =
        omega (arith, c.1, end_of_aligned h a.first blocks v.aligned (c.6))
