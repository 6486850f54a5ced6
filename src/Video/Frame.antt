-- ===== src/Video/Frame.antt =====
-- TW_ClearVideoRectangle against the frame buffer.
use libtwilight.Prelude.{
  ℕ, zero, suc, ◌+◌, ◌*◌, ◌%◌, ◌^◌, ◌≤◌, ◌<◌, ◌≡◌, ap, sym, refl, ◌∙◌, ◌||◌, List, [], ◌∷◌, arith,
  ne→==, ◌==◌, if◌then◌else◌,
}
use native.Mathlib.Nat.{mul-le-mul_left}
use mathlib.Core.Path.{subst}
use libtwilight.Prelude.Int.{
  ℤ, pos, negsuc, pos_part, is_negative, is_above, add, add32, diff, IsInt, add32-add,
}
use libtwilight.Video.{Fill, clip, fill_lines, clear_rectangle}

-- Every fill lies in the 320 * 480 words of the frame buffer.
abbrev pub AllInFrame : List Fill → Type 0
AllInFrame [] = Unit {0}
AllInFrame (f ∷ fills) = (f.offset + f.words ≤ 320 * 480) × AllInFrame fills

-- `clip` of a side whose end does not overflow.
exact_clip : ℤ → ℤ → ℕ → ℕ × ℕ
exact_clip x w limit =
    let start = pos_part x in
    let rest = if is_negative x then add w x else w in
    let inside = if is_above limit (add (pos start) rest) then diff limit start else rest in
    (start, pos_part inside)

exact_clip-limit :
    (x w : ℤ) (limit : ℕ) → let (start, len) = exact_clip x w limit in 0 < len → start + len ≤ limit
unfolding exact_clip
exact_clip-limit (pos x) (pos w) limit h = ground arith
exact_clip-limit (pos x) (negsuc w) limit h = ground arith
exact_clip-limit (negsuc x) (pos w) limit h = ground arith
exact_clip-limit (negsuc x) (negsuc w) limit h = ground arith

add-zero_pos : (a : ℤ) → add (pos 0) a ≡ a
add-zero_pos (pos a) = ground arith
add-zero_pos (negsuc a) = ground arith

add_comm : (a b : ℤ) → add a b ≡ add b a
add_comm (pos a) (pos b) = ground arith
add_comm (pos a) (negsuc b) = refl
add_comm (negsuc a) (pos b) = refl
add_comm (negsuc a) (negsuc b) = ground arith

clip-exact : (x w : ℤ) (limit : ℕ) → IsInt (add x w) → clip x w limit ≡ exact_clip x w limit
unfolding clip exact_clip
clip-exact (pos x) w limit h =
    ap (λ (s : ℤ). (x, pos_part (if is_above limit s then diff limit x else w)))
      (add32-add (pos x) w h)
clip-exact (negsuc x) w limit h =
    let moved = subst IsInt (add_comm (negsuc x) w) h in
    let rest = add (w) (negsuc x) in
    let still : IsInt (add (pos 0) rest) = subst IsInt (sym (add-zero_pos rest)) moved in
    let side : ℤ → ℤ → ℕ × ℕ =
      λ r s. (0, pos_part (if is_above limit s then diff limit 0 else r)) in
    ap (λ (r : ℤ). side r (add32 (pos 0) r)) (add32-add w (negsuc x) moved)
    ∙ ap (side rest) (add32-add (pos 0) rest still)

clip-limit :
    (x w : ℤ) (limit : ℕ)
    → IsInt (add x w)
    → let (start, len) = clip x w limit in 0 < len → start + len ≤ limit
clip-limit x w limit h =
    subst (λ (r : ℕ × ℕ). 0 < r.1 → r.0 + r.1 ≤ limit) (sym (clip-exact x w limit h))
      (exact_clip-limit x w limit)

line_inside : (x y w : ℕ) → x + w ≤ 320 → y < 480 → (y * w + x) % 2 ^ 32 + w ≤ 320 * 480
line_inside x y w hx hy =
    let per_line : y * w ≤ y * 320 = mul-le-mul_left y (omega arith) in omega (arith, per_line)

fill_lines-AllInFrame :
    (color x w y lines : ℕ)
    → x + w ≤ 320
    → y + lines ≤ 480
    → AllInFrame (fill_lines color x w y lines)
unfolding fill_lines
fill_lines-AllInFrame color x w y zero hx hy = tt
fill_lines-AllInFrame color x w y (suc lines) hx hy = (
  line_inside x y w hx (omega arith),
  fill_lines-AllInFrame color x w (suc y) lines hx (omega arith),
)

drawn-AllInFrame :
    (color left width top height : ℕ)
    → (0 < width → left + width ≤ 320)
    → (0 < height → top + height ≤ 480)
    → AllInFrame (if width == 0 || height == 0 then [] else fill_lines color left width top height)
drawn-AllInFrame color left zero top height hx hy = tt
drawn-AllInFrame color left (suc width) top zero hx hy = rw (ne→== (suc width) 0 (omega arith)) tt
drawn-AllInFrame color left (suc width) top (suc height) hx hy =
    rw (ne→== (suc width) 0 (omega arith), ne→== (suc height) 0 (omega arith))
      (fill_lines-AllInFrame color left (suc width) top (suc height) (hx (omega arith))
        (hy (omega arith)))

-- TW_ClearVideoRectangle of a rectangle partly or wholly off the screen too writes only inside the
-- 320 * 480 words of the frame buffer, when x + w and y + h, its right and its lower end, fit an `int`.
pub clear_rectangle-AllInFrame :
    (color : ℕ) (x y w h : ℤ)
    → IsInt (add x w)
    → IsInt (add y h)
    → AllInFrame (clear_rectangle color x y w h)
unfolding clear_rectangle
clear_rectangle-AllInFrame color x y w h right lower =
    drawn-AllInFrame color (clip x w 320).0 (clip x w 320).1 (clip y h 480).0 (clip y h 480).1
      (clip-limit x w 320 right) (clip-limit y h 480 lower)
