-- ===== src/Flex/Append.antt =====
-- The capacity of a flexible array, and the block that it stands for.
use libtwilight.Prelude.{
  ℕ, zero, suc, ◌+◌, ◌*◌, ◌/◌, ◌%◌, ◌^◌, ◌≤◌, ◌<◌, ◌≡◌, refl, sym, ap, ◌∙◌, ◌⊎◌, inl, inr, Bool,
  true, false, List, ◌++◌, Option, none, some, ltb, length, take, arith, lt→ltb, le→ltb, eq→==,
  length-take, length-append, length-replicate, replicate, lt→leb, take_all,
}
use mathlib.Core.Option
use native.Mathlib.Decide.{dec_lt}
use libtwilight.Prelude.Int.{
  ℤ, pos, negsuc, add32, add32-add, bits_of_int, signed32, quotient, is_above,
}
use libtwilight.Memory.{store_at, copy_bytes, length-store_at}
use libtwilight.Flex.Stream.{take-store_at}
use libtwilight.Flex.{
  FlexArray, allocate, next_cap, grow, resize_to, resize, store_appended, append,
}

next_cap-exact : (c : ℕ) → c + 1 < 2 ^ 27 → next_cap (pos c) ≡ pos ((c + 1) * 2 ^ 4 / 10)
unfolding next_cap add32
next_cap-exact c h =
    let sum : ltb ((c + 1) % 2 ^ 32) (2 ^ 31) ≡ true =
      lt→ltb ((c + 1) % 2 ^ 32) (2 ^ 31) (omega arith) in
    let word : (c + 1) % 2 ^ 32 % 2 ^ 32 * 2 ^ 4 % 2 ^ 32 ≡ (c + 1) * 2 ^ 4 = omega arith in
    let small : ltb ((c + 1) * 2 ^ 4) (2 ^ 31) ≡ true =
      lt→ltb ((c + 1) * 2 ^ 4) (2 ^ 31) (omega arith) in
    rw (sum, word, small) refl

-- What the loop does from the capacity `c` on: it ends with `k`.
abbrev pub Grows : ℕ → ℕ → ℕ → Option ℤ → Type 0
Grows new_size c k r =
    (r ≡ some (pos k))
    × (new_size ≤ k)
    × (c ≤ k)
    × ((k ≡ c) ⊎ ((c < new_size) × (k * 10 ≤ new_size * 16)))

grow-enough : (fuel new_size c : ℕ) → new_size ≤ c → grow fuel new_size (pos c) ≡ some (pos c)
unfolding grow
grow-enough zero new_size c h = rw (le→ltb c new_size h) refl
grow-enough (suc fuel) new_size c h = rw (le→ltb c new_size h) refl

grow-Grows :
    (fuel new_size c : ℕ)
    → 64 ≤ c
    → new_size < 2 ^ 27
    → new_size ≤ c + fuel
    → (k : ℕ) × Grows new_size c k (grow fuel new_size (pos c))
unfolding grow
grow-Grows zero new_size c big small enough =
    (c, (grow-enough zero new_size c (omega arith), omega arith, omega arith, inl refl))
grow-Grows (suc fuel) new_size c big small enough = elim (dec_lt c new_size) [
  | yes lt ↦
      let c' = (c + 1) * 2 ^ 4 / 10 in
      let (k, (e, le, up, last)) = grow-Grows fuel new_size c' (omega arith) small (omega arith) in
      (
        k,
        (
          rw (lt→ltb c new_size lt, next_cap-exact c (omega arith)) e,
          le,
          omega arith,
          inr (lt, bound c k lt last),
        ),
      )
  | no ge ↦
      (c, (grow-enough (suc fuel) new_size c (omega arith), omega arith, omega arith, inl refl))
]
  where
    bound :
        (c k : ℕ)
        → c < new_size
        → let c' = (c + 1) * 2 ^ 4 / 10 in
          (k ≡ c') ⊎ ((c' < new_size) × (k * 10 ≤ new_size * 16)) → k * 10 ≤ new_size * 16
    bound c k lt (inl e) = omega arith
    bound c k lt (inr (more, b)) = b

-- For sizes below 2^27 the loop that grows the capacity from at least 64 ends: with a capacity of at least the
-- size asked for and of at least the one before, which is the one before, or that was too small and the new
-- one is at most 1.6 times the size.
pub grow-le :
    (new_size c : ℕ)
    → 64 ≤ c
    → new_size < 2 ^ 27
    → (k : ℕ) × Grows new_size c k (grow new_size new_size (pos c))
grow-le new_size c big small = grow-Grows new_size new_size c big small (omega arith)

quotient-small : (w : ℕ) → is_above 214748364 (quotient (signed32 (w % 2 ^ 32)) 10) ≡ false
quotient-small w = ground arith

next_low : (c : ℤ) → is_above 214748364 (next_cap c) ≡ false
unfolding next_cap
next_low c = quotient-small (bits_of_int (add32 c (pos 1)) * 2 ^ 4)

endless :
    (fuel new_size : ℕ) (c : ℤ)
    → is_above 214748364 c ≡ false
    → 214748364 < new_size
    → grow fuel new_size c ≡ none
unfolding grow
endless zero new_size (pos c) low large = rw (lt→ltb c new_size (ground arith)) refl
endless zero new_size (negsuc c) low large = refl
endless (suc fuel) new_size (pos c) low large =
    rw (lt→ltb c new_size (ground arith))
      (endless fuel new_size (next_cap (pos c)) (next_low (pos c)) large)
endless (suc fuel) new_size (negsuc c) low large =
    endless fuel new_size (next_cap (negsuc c)) (next_low (negsuc c)) large

-- For a size above 214748364, which is (2^31 - 1) / 10, the loop never ends from a capacity up to that number:
-- the shift overflows, so that no round makes a capacity above it.
grow-endless :
    (fuel new_size c : ℕ) → c ≤ 214748364 → 214748364 < new_size → grow fuel new_size (pos c) ≡ none
grow-endless fuel new_size c low large =
    endless fuel new_size (pos c) (le→ltb 214748364 c (omega arith)) large

-- An array as TW_MakeFlexArray makes it without an initial capacity.
abbrev pub empty : FlexArray
empty = record { capacity = 0; size = 0; block = none }

-- The array behind the first append of up to 64 bytes.
abbrev pub first_block : List ℕ → FlexArray
first_block bytes = record { capacity = 64; size = length bytes; block = some bytes }

store_whole :
    (block bytes : List ℕ)
    → length block ≡ length bytes
    → copy_bytes block 0 bytes (length bytes) ≡ bytes
unfolding copy_bytes
store_whole block bytes e =
    ap (store_at block 0) (take_all (length bytes) bytes (omega arith))
    ∙ sym (
        take_all (0 + length bytes) (store_at block 0 bytes)
          (omega (arith, length-store_at block 0 bytes)))
    ∙ take-store_at block 0 bytes (omega arith)

allocated : List ℕ → ℕ → List ℕ
allocated fresh n = take n (fresh ++ replicate n 0)

length-allocated : (fresh : List ℕ) (n : ℕ) → length (allocated fresh n) ≡ n
unfolding allocated
length-allocated fresh n = omega (
  arith,
  length-take n (fresh ++ replicate n 0),
  length-append fresh (replicate n 0),
  length-replicate {A = ℕ} n 0,
)

resize-first :
    (fresh : List ℕ) (n : ℕ)
    → 0 < n
    → n ≤ 64
    → resize true fresh empty (pos n)
      ≡ some (record { capacity = 64; size = n; block = some (allocated fresh n) }, pos n)
unfolding resize resize_to allocate allocated
resize-first fresh n lo hi = rw (lt→leb n 0 lo, grow-enough n n 64 hi) refl

append-resize :
    (has_memory : Bool) (fresh : List ℕ) (a : FlexArray) (bytes : List ℕ) (size : ℕ)
    {r : FlexArray × ℤ}
    → 0 < size
    → a.size + size < 2 ^ 31
    → resize has_memory fresh a (pos (a.size + size)) ≡ some r
    → append has_memory fresh a bytes (pos size)
      ≡ some (store_appended a.size bytes size (pos (a.size + size)) r)
unfolding append
append-resize has_memory fresh a bytes size lo small e =
    let asked : ℤ → Option (FlexArray × ℤ) =
      λ n. Option.map (store_appended a.size bytes size n) (resize has_memory fresh a n) in
    rw (lt→leb size 0 lo) (
      ap asked (add32-add (pos a.size) (pos size) small)
      ∙ ap (Option.map (store_appended a.size bytes size (pos (a.size + size)))) e)

append-first :
    (fresh bytes : List ℕ)
    → 0 < length bytes
    → length bytes ≤ 64
    → append true fresh empty bytes (pos (length bytes))
      ≡ some (first_block bytes, pos (length bytes))
append-first fresh bytes lo hi =
    append-resize true fresh empty bytes (length bytes) lo (omega arith) (
      ap (λ (n : ℕ). resize true fresh empty (pos n)) exact
      ∙ resize-first fresh (length bytes) lo hi)
    ∙ ap some stored
  where
    exact : 0 + length bytes ≡ length bytes
    exact = omega arith

    stored :
        store_appended 0 bytes (length bytes) (pos (0 + length bytes)) (
          record {
            capacity = 64;
            size = length bytes;
            block = some (allocated fresh (length bytes));
          },
          pos (length bytes),
        )
        ≡ (first_block bytes, pos (length bytes))
    stored =
        unfold store_appended in
        rw (eq→== (length bytes) (0 + length bytes) (omega arith)) (
          ap
            (λ (b : List ℕ).
              (record { capacity = 64; size = length bytes; block = some b }, pos (length bytes)))
            (store_whole (allocated fresh (length bytes)) bytes
              (length-allocated fresh (length bytes))))

resize-within :
    (has_memory : Bool) (fresh bytes : List ℕ) (n : ℕ)
    → length bytes < n
    → n ≤ 64
    → resize has_memory fresh (first_block bytes) (pos n)
      ≡ some (record (first_block bytes) { size = n }, pos n)
unfolding resize resize_to
resize-within has_memory fresh bytes n lo hi =
    rw (lt→leb n (length bytes) lo, grow-enough n n 64 hi) refl

-- The array behind the second append.
abbrev second_block : List ℕ → List ℕ → FlexArray
second_block bytes more = record {
  capacity = 64;
  size = length bytes + length more;
  block = some (copy_bytes bytes (length bytes) more (length more));
}

-- The first append to an empty array allocates exactly the bytes appended, yet records a capacity of 64:
-- a second append of bytes that fit this capacity succeeds and counts them, but does not allocate, and the
-- block stays as long as it was, so that the new bytes lie behind its end.
append-behind_block :
    (fresh bytes : List ℕ) (has_memory : Bool) (fresh' more : List ℕ)
    → 0 < length bytes
    → 0 < length more
    → length bytes + length more ≤ 64
    → (append true fresh empty bytes (pos (length bytes))
        ≡ some (first_block bytes, pos (length bytes)))
      × (append has_memory fresh' (first_block bytes) more (pos (length more))
          ≡ some (second_block bytes more, pos (length bytes + length more)))
      × (Option.map length (second_block bytes more).block ≡ some (length bytes))
append-behind_block fresh bytes has_memory fresh' more lo lo' hi = (
  append-first fresh bytes lo (omega arith),
  append-resize has_memory fresh' (first_block bytes) more (length more) lo' (omega arith)
        (resize-within has_memory fresh' bytes (length bytes + length more) (omega arith) hi)
      ∙ ap some stored,
  unfold copy_bytes in ap some (length-store_at bytes (length bytes) (take (length more) more)),
)
  where
    n : ℕ
    n = length bytes + length more

    stored :
        store_appended
          (length bytes)
          more
          (length more)
          (pos n)
          (record (first_block bytes) { size = n }, pos n)
        ≡ (second_block bytes more, pos n)
    stored = unfold store_appended in rw (eq→== n n refl) refl
