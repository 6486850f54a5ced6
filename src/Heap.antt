-- ===== src/Heap.antt =====
-- common/structures.c, TwHeapAllocator: blocks with a header of two words, `prev` and `next`, in front of each
-- object. Addresses are 32-bit words; bit 0 of `prev` says that the block was freed. The memory of the
-- headers is a pair of functions from the address of a header to its words.
pub mod Chain
pub mod Allocate
pub mod Size
pub mod Free
mod Examples
use libtwilight.Prelude.{
  ℕ, zero, suc, ◌+◌, ◌-◌, ◌*◌, ◌%◌, ◌^◌, bit_and, bit_or, Bool, ◌&&◌, ◌||◌, List, [], ◌∷◌, Option,
  none, some, ltb, leb, ◌==◌, if◌then◌else◌,
}
use mathlib.Core.Option
use libtwilight.Prelude.Int.{ℤ, pos, negsuc, signed32, pos_part}
use libtwilight.Prelude.Bits.{complement}

pub record Headers : Type 0 where
  pub prev : ℕ → ℕ
  pub next : ℕ → ℕ

-- `TwHeapAllocator`, less its mutex; the chain of allocators is a list.
pub record Allocator : Type 0 where
  pub capacity : ℕ
  pub start_addr : ℕ
  pub first : ℕ
  pub last : ℕ

abbrev pub put : (ℕ → ℕ) → ℕ → ℕ → ℕ → ℕ
put words address value x = if x == address then value else words x

-- `TW_MakeHeapAllocator`.
pub make_heap_allocator : ℕ → ℕ → Allocator
make_heap_allocator start_address end_address =
    let low = if ltb end_address start_address then end_address else start_address in
    let high = if ltb end_address start_address then start_address else end_address in
    record { capacity = high - low; start_addr = low; first = low; last = 0 }

-- `TW_CalcHeapObjectInnerSize`; the product is an `int`, which wraps around.
pub inner_size : ℤ → ℤ → ℤ
inner_size (pos count) (pos elem_size) =
    if elem_size == 0 then pos count else signed32 (count * elem_size % 2 ^ 32)
inner_size (pos count) (negsuc n) = signed32 (count * suc n % 2 ^ 32)
inner_size (negsuc n) elem_size = pos 0

-- The loop of `TW_DetermineHeapObjectMaximumSize` at the header `hdr`: the headers, and the size as a word.
pub size_loop : ℕ → Allocator → ℕ → ℕ → Headers → Option (Headers × ℕ)
size_loop zero a ptr hdr h = none
size_loop (suc fuel) a ptr hdr h =
    let next = h.next hdr in
    let merged : Headers = record {
      prev = put h.prev next 0;
      next = put (put h.next ((ptr + 2 ^ 32 - 8) % 2 ^ 32) (h.next next)) next 0;
    } in
    let again = size_loop fuel a ptr next merged in
    if next == 0 || hdr == a.last
    then some (h, (a.start_addr + a.capacity + (2 ^ 32 - ptr) + (2 ^ 32 - 8)) % 2 ^ 32)
    else if bit_and (h.prev next) 1 == 0
    then some (h, (hdr + (2 ^ 32 - ptr)) % 2 ^ 32)
    else again

-- `TW_DetermineHeapObjectMaximumSize`, as an `int`; the second round ends the loop, since the first has
-- set the word `next` that the second looks at to 0.
pub maximum_size : Allocator → ℕ → Headers → Option (Headers × ℤ)
unfolding size_loop
maximum_size a ptr h =
    Option.map (λ (r : Headers × ℕ). (r.0, signed32 r.1))
      (size_loop 2 a ptr ((ptr + 2 ^ 32 - 8) % 2 ^ 32) h)

-- `blockSize >= allocSize`.
abbrev pub is_enough : ℕ → ℤ → Bool
is_enough size (pos n) = leb size n
is_enough size (negsuc n) = Bool.false

-- `new_size <= cur_size`.
abbrev pub is_fitting : ℤ → ℤ → Bool
is_fitting (pos size) cur_size = is_enough size cur_size
is_fitting (negsuc n) (pos cur_size) = Bool.true
is_fitting (negsuc n) (negsuc m) = leb m n

-- `_tw_search_for_suitable_block`, on fuel for the blocks that it looks at; the pointer is 0 if it finds none.
pub search_loop : ℕ → Allocator → ℕ → ℕ → Headers → Option (Headers × ℕ)
unfolding maximum_size
search_loop zero a size hdr h = none
search_loop (suc fuel) a size hdr h =
    let skip = search_loop fuel a size (h.next hdr) h in
    let tried : Option (Headers × ℕ) = elim (maximum_size a ((hdr + 8) % 2 ^ 32) h) [
      | none ↦ none
      | some r ↦
          let later = search_loop fuel a size (r.0.next hdr) r.0 in
          if is_enough size r.1 then some (r.0, (hdr + 8) % 2 ^ 32) else later
    ] in
    if hdr == 0 then some (h, 0) else if bit_and (h.prev hdr) 1 == 0 then skip else tried

-- `alloc->last ? alloc->last->next : alloc->first`.
pub next_header : Allocator → Headers → ℕ
next_header a h = if a.last == 0 then a.first else h.next a.last

-- The block that starts at `hdr` and ends at `next`, written behind `a.last`.
pub append_block : Allocator → Headers → ℕ → ℕ → Allocator × Headers
append_block a h hdr next =
    (record a { last = hdr }, record { prev = put h.prev hdr a.last; next = put h.next hdr next })

-- `_tw_allocate_heap_object` of `size` bytes: the chain, the headers and the pointer, which is 0 on failure.
pub allocate_loop : ℕ → List Allocator → Headers → ℕ → Option (List Allocator × Headers × ℕ)
unfolding search_loop next_header append_block
allocate_loop fuel [] h size = some ([], h, 0)
allocate_loop fuel (a ∷ rest) h size =
    let hdr = next_header a h in
    let start = (hdr + 8) % 2 ^ 32 in
    let alloc_size = bit_and (size + 3) (complement 32 3) in
    let next = (start + alloc_size) % 2 ^ 32 in
    let (a', h') = append_block a h hdr next in
    let searched : Option (List Allocator × Headers × ℕ) =
      elim (search_loop fuel a alloc_size a.first h) [
        | none ↦ none
        | some r ↦
            let (b, g) = append_block a r.0 hdr next in
            let onward =
              Option.map (λ (q : List Allocator × Headers × ℕ). (a ∷ q.0, q.1, q.2))
                (allocate_loop fuel rest r.0 size) in
            if r.1 == 0 then onward else some (b ∷ rest, g, r.1)
      ] in
    if ltb ((a.start_addr + a.capacity) % 2 ^ 32) ((next + 8) % 2 ^ 32)
    then searched
    else some (a' ∷ rest, h', start)

pub allocate : ℕ → List Allocator → Headers → ℤ → ℤ → Option (List Allocator × Headers × ℕ)
unfolding allocate_loop inner_size
allocate fuel heap h count elem_size =
    let size = pos_part (inner_size count elem_size) in
    if size == 0 then some (heap, h, 0) else allocate_loop fuel heap h size

-- `_tw_free_heap_object`.
pub free : List Allocator → Headers → ℕ → Headers
free [] h ptr = h
free (a ∷ rest) h ptr =
    let hdr = (ptr + 2 ^ 32 - 8) % 2 ^ 32 in
    let rest' = free rest h ptr in
    if leb a.start_addr ptr && ltb ptr ((a.start_addr + a.capacity) % 2 ^ 32)
    then record h { prev = put h.prev hdr (bit_or (h.prev hdr) 1) }
    else rest'

-- What `_tw_reallocate_heap_object` did: the pointer that it returned, and how many bytes it copied there.
pub record Reallocated : Type 0 where
  pub heap : List Allocator
  pub headers : Headers
  pub pointer : ℕ
  pub copied : ℕ

-- The end of `_tw_reallocate_heap_object`, by the result of the allocation; `TW_CopyBytes` of a size that is
-- not positive copies nothing.
pub move_object : ℕ → ℤ → Option (List Allocator × Headers × ℕ) → Option Reallocated
unfolding free
move_object ptr cur_size none = none
move_object ptr cur_size (some (heap, h, new_ptr)) =
    if new_ptr == 0
    then some (record { heap = heap; headers = h; pointer = 0; copied = 0 })
    else some (record {
      heap = heap;
      headers = free heap h ptr;
      pointer = new_ptr;
      copied = pos_part cur_size;
    })

-- The rest, by the size that the object has.
pub reallocate_sized : ℕ → List Allocator → ℕ → ℤ → ℤ → Option (Headers × ℤ) → Option Reallocated
unfolding inner_size allocate move_object
reallocate_sized fuel heap ptr count elem_size none = none
reallocate_sized fuel heap ptr count elem_size (some (h, cur_size)) =
    if is_fitting (inner_size count elem_size) cur_size
    then some (record { heap = heap; headers = h; pointer = ptr; copied = 0 })
    else move_object ptr cur_size (allocate fuel heap h count elem_size)

-- `_tw_reallocate_heap_object`, in the allocator `a` at the head of the chain.
pub reallocate : ℕ → Allocator → List Allocator → Headers → ℕ → ℤ → ℤ → Option Reallocated
unfolding maximum_size reallocate_sized
reallocate fuel a rest h ptr count elem_size =
    reallocate_sized fuel (a ∷ rest) ptr count elem_size (maximum_size a ptr h)
