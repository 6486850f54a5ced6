-- ===== src/Flex.antt =====
-- common/structures.c, TwFlexArray and TwBufferStream: arrays of bytes that grow, or do not, as a stream
-- writes to them. Sizes are `int`s. `TW_Allocate` enters as the bytes of the new block, whose length is
-- the size asked for and whose front is what the old block held, or as its failure.
pub mod Append
pub mod Stream
mod Examples
use libtwilight.Prelude.{
  ℕ, zero, suc, ◌+◌, ◌-◌, ◌*◌, ◌%◌, ◌^◌, Bool, true, false, List, [], ◌∷◌, ◌++◌, Option, none, some,
  ltb, leb, ◌==◌, if◌then◌else◌, length, take, replicate,
}
use mathlib.Core.Option
use libtwilight.Prelude.Int.{
  ℤ, pos, negsuc, pos_part, signed32, quotient, bits_of_int, add32, is_above, is_below,
}
use libtwilight.Memory.{copy_bytes}

-- `TwFlexArray`; `block` is what `data` points at, all that was allocated.
pub record FlexArray : Type 0 where
  pub capacity : ℕ
  pub size : ℕ
  pub block : Option (List ℕ)

-- What `TW_Allocate` of `new_size` bytes makes of the block: with success, the old bytes in front.
pub allocate : Bool → List ℕ → Option (List ℕ) → ℕ → Option (List ℕ)
allocate false fresh old new_size = none
allocate true fresh none new_size = some (take new_size (fresh ++ replicate new_size 0))
allocate true fresh (some bytes) new_size =
    some (take new_size (bytes ++ fresh ++ replicate new_size 0))

-- `((new_cap + 1) << 4) / 10`; the shift is one of 32 bits, and the division is towards 0.
pub next_cap : ℤ → ℤ
unfolding add32
next_cap new_cap = quotient (signed32 (bits_of_int (add32 new_cap (pos 1)) * 2 ^ 4 % 2 ^ 32)) 10

-- `while (newSize > new_cap) new_cap = ((new_cap + 1) << 4) / 10`, with no result when the fuel runs out.
pub grow : ℕ → ℕ → ℤ → Option ℤ
unfolding next_cap
grow zero new_size new_cap = if is_below new_cap new_size then none else some new_cap
grow (suc fuel) new_size new_cap =
    let rest = grow fuel new_size (next_cap new_cap) in
    if is_below new_cap new_size then rest else some new_cap

-- The rest of `TW_ResizeFlexArray` with the new capacity.
pub resize_to : Bool → List ℕ → FlexArray → ℕ → ℕ → FlexArray × ℤ
unfolding allocate
resize_to has_memory fresh a new_size new_cap =
    let block = allocate has_memory fresh a.block new_size in
    if ltb a.capacity new_cap
    then elim block [
      | none ↦ (record a { block = none }, negsuc 0)
      | some bytes ↦
          (record { capacity = new_cap; size = new_size; block = some bytes }, pos new_size)
    ]
    else (record a { size = new_size }, pos new_size)

-- `TW_ResizeFlexArray`; `has_memory` and `fresh` say what the allocator does if it is called. A capacity that
-- ends the loop is not negative. There is no result when the loop does not end.
pub resize : Bool → List ℕ → FlexArray → ℤ → Option (FlexArray × ℤ)
unfolding resize_to grow
resize has_memory fresh a (negsuc n) = some (a, pos 0)
resize has_memory fresh a (pos new_size) =
    let start = if ltb a.capacity 64 then 64 else a.capacity in
    let resized =
      Option.map (λ (new_cap : ℤ). resize_to has_memory fresh a new_size (pos_part new_cap))
        (grow new_size new_size (pos start)) in
    if leb new_size a.size then some (a, pos new_size) else resized

-- `new_size != pos + size`.
abbrev pub is_same : ℤ → ℤ → Bool
is_same (pos m) (pos n) = m == n
is_same (negsuc m) (negsuc n) = m == n
is_same m n = false

-- The end of `TW_AppendFlexArray`, by the size asked for and the result of the resizing.
pub store_appended : ℕ → List ℕ → ℕ → ℤ → FlexArray × ℤ → FlexArray × ℤ
unfolding copy_bytes
store_appended start bytes size expected (a, result) =
    let block = Option.map (λ (block : List ℕ). copy_bytes block start bytes size) a.block in
    if is_same result expected then (record a { block = block }, result) else (a, result)

-- `TW_AppendFlexArray`; `pos + size` is an `int`, which wraps around.
pub append : Bool → List ℕ → FlexArray → List ℕ → ℤ → Option (FlexArray × ℤ)
unfolding resize store_appended add32
append has_memory fresh a bytes (negsuc n) = some (a, pos a.size)
append has_memory fresh a bytes (pos size) =
    let expected = add32 (pos a.size) (pos size) in
    let appended =
      Option.map (store_appended a.size bytes size expected) (resize has_memory fresh a expected) in
    if leb size 0 then some (a, pos a.size) else appended

-- `TW_FreeFlexArray`.
pub free : FlexArray → FlexArray
free a = record { capacity = 0; size = 0; block = none }

-- `TwBufferStream`.
pub record BufferStream : Type 0 where
  pub buffer : List ℕ
  pub offset : ℕ
  pub capacity : ℕ

-- `TW_MakeBufferStream`.
pub make_buffer_stream : List ℕ → ℕ → BufferStream
make_buffer_stream bytes size = record { buffer = bytes; offset = 0; capacity = size }

-- `_tw_write_buffer_stream` of `size` bytes: the stream, and the result, -1 where they do not fit. The sum of
-- `offset` and `size` is an `int`, which wraps around.
pub write_buffer_stream : BufferStream → List ℕ → ℕ → BufferStream × ℤ
unfolding copy_bytes add32
write_buffer_stream s bytes size =
    if is_above s.capacity (add32 (pos s.offset) (pos size)) then (s, negsuc 0) else (
      record s { buffer = copy_bytes s.buffer s.offset bytes size; offset = s.offset + size },
      pos size,
    )
