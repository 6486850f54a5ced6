-- ===== src/Paths/Fitting.antt =====
-- common/filesystem.c, TW_WriteMatchingPaths, with the stream of common/structures.c over a fixed buffer.
use mathlib.Core.Path.{subst}
use libtwilight.Prelude.{
  ℕ, ◌+◌, ◌-◌, ◌^◌, ◌≤◌, ◌<◌, ◌≡◌, refl, sym, ap, ap₂, ◌∙◌, inl, inr, false, List, [], ◌∷◌, ◌++◌,
  ltb, if◌then◌else◌, length, arith, ne→==, lt→ltb, le→ltb, append-nil, append_assoc, Bool-cases,
}
use libtwilight.Prelude.Int.{ℤ, pos, negsuc}
use libtwilight.Flex.{BufferStream, write_buffer_stream}
use libtwilight.Flex.Stream.{IsValid, Writes, written, write_buffer_stream-Writes}
use libtwilight.Paths.{is_matching, is_zero, write_matching_paths}
use libtwilight.Paths.Matching.{matching, transfer_all, up_to_zero, write_matching_paths-up_to_zero}

abbrev pub to_buffer : BufferStream → List ℕ → BufferStream × ℤ
to_buffer s p = write_buffer_stream s p (length p)

-- The paths that fit, one behind the other, each in what room the ones before it left.
abbrev pub fitting : ℕ → List (List ℕ) → List ℕ
fitting room [] = []
fitting room (p ∷ ps) =
    if ltb room (length p) then fitting room ps else p ++ fitting (room - length p) ps

-- No path is empty, and none overflows the offset of a stream with this capacity.
abbrev pub AllSmall : ℕ → List (List ℕ) → Type 0
AllSmall capacity [] = Unit
AllSmall capacity (p ∷ ps) = (0 < length p) × (capacity + length p < 2 ^ 31) × AllSmall capacity ps

matching-AllSmall :
    (capacity : ℕ) (path : List ℕ) (ps : List (List ℕ))
    → AllSmall capacity ps
    → AllSmall capacity (matching path ps)
matching-AllSmall capacity path [] h = tt
matching-AllSmall capacity path (p ∷ ps) (some_bytes, small, h) =
    let rest = matching-AllSmall capacity path ps h in
    elim (Bool-cases (is_matching path p)) [
      | inl e ↦ rw e (some_bytes, small, rest)
      | inr e ↦ rw e rest
    ]

-- What a sequence of transfers does: none has the result 0, and what fits is appended.
abbrev Fits : BufferStream → List (List ℕ) → Type 0
Fits s ps =
    (up_to_zero to_buffer ps s ≡ ps)
    × (written (transfer_all to_buffer ps s) ≡ written s ++ fitting (s.capacity - s.offset) ps)

Writes-IsValid :
    (s : BufferStream) (p : List ℕ) (r : BufferStream × ℤ)
    → IsValid s
    → Writes s p r
    → IsValid r.0 × (r.0.capacity ≡ s.capacity)
Writes-IsValid s p (s', pos n) v (e, text, moved, kept, v') = (v', kept)
Writes-IsValid s p (s', negsuc n) v (z, same, lt) =
    (subst IsValid (sym same) v, ap (λ t. t.capacity) same)

-- The same by the result `r` of the first transfer.
Fits-step :
    (s : BufferStream) (p : List ℕ) (ps : List (List ℕ)) (r : BufferStream × ℤ)
    → 0 < length p
    → Writes s p r
    → Fits r.0 ps
    → (is_zero r.1 ≡ false)
      × (written (transfer_all to_buffer ps r.0)
          ≡ written s ++ fitting (s.capacity - s.offset) (p ∷ ps))
Fits-step s p ps (s', pos n) some_bytes (e, text, moved, kept, v) (all, rest) =
    let room : s'.capacity - s'.offset ≡ s.capacity - s.offset - length p = omega arith in
    let wide : length p ≤ s.capacity - s.offset = omega (arith, v.inside) in
    let tail = fitting (s.capacity - s.offset - length p) ps in
    (
      ne→== n 0 (omega arith),
      rest
          ∙ ap₂ (λ (t : List ℕ) (k : ℕ). t ++ fitting k ps) text room
          ∙ append_assoc (written s) p tail
          ∙ ap (λ b. written s ++ (if b then fitting (s.capacity - s.offset) ps else p ++ tail))
              (sym (le→ltb (s.capacity - s.offset) (length p) wide)),
    )
Fits-step s p ps (s', negsuc n) some_bytes (z, same, lt) (all, rest) =
    let room = s.capacity - s.offset in
    let tail = p ++ fitting (room - length p) ps in
    (
      refl,
      subst
            (λ t.
              written (transfer_all to_buffer ps s')
              ≡ written t ++ fitting (t.capacity - t.offset) ps)
            same rest
          ∙ ap (λ b. written s ++ (if b then fitting room ps else tail))
              (sym (lt→ltb room (length p) (omega arith))),
    )

Fits-all : (s : BufferStream) (ps : List (List ℕ)) → IsValid s → AllSmall s.capacity ps → Fits s ps
Fits-all s [] v h = (refl, sym (append-nil (written s)))
Fits-all s (p ∷ ps) v (some_bytes, small, h) =
    let r = to_buffer s p in
    let w = write_buffer_stream-Writes s p v (omega (arith, v.inside)) in
    let (v', same) = Writes-IsValid s p r v w in
    let rest = Fits-all r.0 ps v' (subst (λ c. AllSmall c ps) (sym same) h) in
    let (goes_on, text) = Fits-step s p ps r some_bytes w rest in
    (
      ap (λ b. p ∷ (if b then [] else up_to_zero to_buffer ps r.0)) goes_on
          ∙ ap (λ (qs : List (List ℕ)). p ∷ qs) rest.0,
      text,
    )

-- TW_WriteMatchingPaths into a buffer stream counts every matching path, also those that the stream refuses
-- with -1 because they do not fit, and goes on behind these: the stream then holds the matching paths that
-- fitted in what room was left, one behind the other. No listed path is empty, and none is so long that the
-- offset overflows.
pub write_matching_paths-to_buffer :
    (path : List ℕ) (ps : List (List ℕ)) (s : BufferStream)
    → IsValid s
    → AllSmall s.capacity ps
    → let (n, s') = write_matching_paths to_buffer path ps 0 s in
      (n ≡ length (matching path ps))
      × (written s' ≡ written s ++ fitting (s.capacity - s.offset) (matching path ps))
write_matching_paths-to_buffer path ps s v h =
    let whole = write_matching_paths-up_to_zero to_buffer path ps s in
    let (all, text) = Fits-all s (matching path ps) v (matching-AllSmall s.capacity path ps h) in
    let sent = λ (qs : List (List ℕ)). transfer_all to_buffer qs s in
    (
      ap (λ (r : ℕ × BufferStream). r.0) whole ∙ ap length all,
      ap (λ (r : ℕ × BufferStream). written r.1) whole
          ∙ ap (λ (qs : List (List ℕ)). written (sent qs)) all
          ∙ text,
    )
