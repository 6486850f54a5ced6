-- ===== src/Flex/Stream.antt =====
-- The stream over a fixed buffer.
use libtwilight.Prelude.{
  ℕ, zero, suc, ◌+◌, ◌^◌, ◌≤◌, ◌<◌, ◌≡◌, refl, ap, List, [], ◌∷◌, ◌++◌, set, length, take, arith,
  lt→ltb, le→ltb, take_all,
}
use native.Mathlib.Decide.{dec_lt}
use libtwilight.Prelude.Int.{ℤ, pos, negsuc, add32, add32-add}
use libtwilight.Memory.{store_at, copy_bytes, length-store_at}
use libtwilight.Flex.{BufferStream, write_buffer_stream}

store_at-cons :
    (d : ℕ) (ds : List ℕ) (at : ℕ) (xs : List ℕ)
    → store_at (d ∷ ds) (suc at) xs ≡ d ∷ store_at ds at xs
unfolding store_at
store_at-cons d ds at [] = refl
store_at-cons d ds at (x ∷ xs) = store_at-cons d (set ds at x) (suc at) xs

pub take-store_at :
    (dst : List ℕ) (at : ℕ) (xs : List ℕ)
    → at + length xs ≤ length dst
    → take (at + length xs) (store_at dst at xs) ≡ take at dst ++ xs
unfolding store_at
take-store_at [] zero [] h = refl
take-store_at [] zero (x ∷ xs) h = absurd (omega arith)
take-store_at [] (suc at) xs h = absurd (omega arith)
take-store_at (d ∷ ds) zero [] h = refl
take-store_at (d ∷ ds) zero (x ∷ xs) h =
    let e : 0 + suc (length xs) ≡ suc (0 + length xs) = omega arith in
    rw (e, store_at-cons x ds 0 xs)
      (ap (λ (l : List ℕ). x ∷ l) (take-store_at ds 0 xs (omega arith)))
take-store_at (d ∷ ds) (suc at) xs h =
    let e : suc at + length xs ≡ suc (at + length xs) = omega arith in
    rw (e, store_at-cons d ds at xs)
      (ap (λ (l : List ℕ). d ∷ l) (take-store_at ds at xs (omega arith)))

-- What the stream has written so far.
abbrev pub written : BufferStream → List ℕ
written s = take s.offset s.buffer

-- The buffer has all its bytes and the offset is in it.
pub record IsValid (s : BufferStream) : Type 0 where
  pub has_room : s.capacity ≤ length s.buffer
  pub inside : s.offset ≤ s.capacity

-- What a write of `bytes` does.
abbrev pub Writes : BufferStream → List ℕ → BufferStream × ℤ → Type 0
Writes s bytes (s', pos n) =
    (n ≡ length bytes)
    × (written s' ≡ written s ++ bytes)
    × (s'.offset ≡ s.offset + length bytes)
    × (s'.capacity ≡ s.capacity)
    × IsValid s'
Writes s bytes (s', negsuc n) = (n ≡ 0) × (s' ≡ s) × (s.capacity < s.offset + length bytes)

-- A write to a buffer stream appends its bytes to what was written before and returns their number, or, if
-- they do not fit behind that, returns -1 and writes nothing. The stream stays within its buffer. The sum of
-- what was written and the new bytes fits an `int`.
pub write_buffer_stream-Writes :
    (s : BufferStream) (bytes : List ℕ)
    → IsValid s
    → s.offset + length bytes < 2 ^ 31
    → Writes s bytes (write_buffer_stream s bytes (length bytes))
unfolding write_buffer_stream copy_bytes
write_buffer_stream-Writes s bytes v fits = elim (dec_lt s.capacity (s.offset + length bytes)) [
  | yes lt ↦ rw (sum, lt→ltb s.capacity (s.offset + length bytes) lt) (refl, refl, lt)
  | no ge ↦
      rw (sum, le→ltb s.capacity (s.offset + length bytes) (omega arith))
        (let all : take (length bytes) bytes ≡ bytes =
            take_all (length bytes) bytes (omega arith) in
          rw all (
            refl,
            take-store_at s.buffer s.offset bytes (omega (arith, v.has_room)),
            refl,
            refl,
            record {
              has_room = omega (arith, v.has_room, length-store_at s.buffer s.offset bytes);
              inside = omega arith;
            },
          ))
]
  where
    sum : add32 (pos s.offset) (pos (length bytes)) ≡ pos (s.offset + length bytes)
    sum = add32-add (pos s.offset) (pos (length bytes)) fits
