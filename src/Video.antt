-- ===== src/Video.antt =====
-- ppc/video.c: colours and rectangles. The numbers of a colour are 32-bit words that wrap around;
-- the frame buffer is 320 words by 480 lines.
pub mod Colour
pub mod Frame
mod Examples
use libtwilight.Prelude.{
  ℕ, zero, suc, ◌+◌, ◌-◌, ◌*◌, ◌/◌, ◌%◌, ◌^◌, bit_and, bit_or, Bool, true, false, not, ◌&&◌, ◌||◌,
  List, [], ◌∷◌, ltb, leb, ◌==◌, if◌then◌else◌, length, ◌++◌,
}
use libtwilight.Prelude.Int.{
  ℤ, pos, negsuc, pos_part, is_negative, signed32, add, diff, is_above, quotient, clamp,
  bits_of_int, add32,
}

-- One channel of `TW_RgbaToYuyv`: the weighted sum, a word, over 10000 and shifted by 128 or 0.
pub channel : ℕ → ℕ → ℕ
channel sum offset = clamp 255 (add (quotient (signed32 (sum % 2 ^ 32)) 10000) (pos offset))

-- `TW_RgbaToYuyv` of the words `r`, `g` and `b`; `(2 ^ 32 - n) * r` is `-n * r`.
pub rgba_to_yuyv : ℕ → ℕ → ℕ → ℕ → ℕ
unfolding channel
rgba_to_yuyv r g b a =
    let y = channel (2126 * r + 7152 * g + 722 * b) 0 in
    let u = channel ((2 ^ 32 - 999) * r + (2 ^ 32 - 3361) * g + 4360 * b) 128 in
    let v = channel (6150 * r + (2 ^ 32 - 5586) * g + (2 ^ 32 - 564) * b) 128 in
    bit_or (bit_or (bit_or (y * 2 ^ 24) (u * 2 ^ 16)) (y * 2 ^ 8)) v

-- One channel of `TW_YuvToRgb`, shifted to its place.
pub rgb_channel : ℕ → ℕ → ℕ
rgb_channel sum place = bits_of_int (quotient (signed32 (sum % 2 ^ 32)) 10000) * 2 ^ place % 2 ^ 32

-- `TW_YuvToRgb` of the words `y`, `u` and `v`. The code goes on to limit `y`, `u` and `v`, which it does not read again.
pub yuv_to_rgb : ℕ → ℕ → ℕ → ℕ
unfolding rgb_channel
yuv_to_rgb y u v =
    let r = rgb_channel (10000 * y + 12803 * v) 16 in
    let g = rgb_channel (10000 * y + (2 ^ 32 - 2148) * u + (2 ^ 32 - 3806) * v) 8 in
    let b = rgb_channel (10000 * y + 21280 * u) 0 in bit_or (bit_or r g) b

-- The start and the length that `TW_ClearVideoRectangle` makes of a side, 0 where it returns. Its sums are
-- `int`s that wrap around; the limit less a start that is not negative always fits.
pub clip : ℤ → ℤ → ℕ → ℕ × ℕ
unfolding add32
clip x w limit =
    let start = pos_part x in
    let rest = if is_negative x then add32 w x else w in
    let inside = if is_above limit (add32 (pos start) rest) then diff limit start else rest in
    (start, pos_part inside)

-- One call of `TW_FillWordsAndFlush`: the first word, the colour, and how many words. The index of the first
-- word is an `int`, given by its 32 bits.
pub record Fill : Type 0 where
  pub offset : ℕ
  pub color : ℕ
  pub words : ℕ

-- The loop over the lines, from line `y` on.
pub fill_lines : ℕ → ℕ → ℕ → ℕ → ℕ → List Fill
fill_lines color x w y zero = []
fill_lines color x w y (suc lines) =
    record { offset = (y * w + x) % 2 ^ 32; color = color; words = w }
    ∷ fill_lines color x w (suc y) lines

-- `TW_ClearVideoRectangle`.
pub clear_rectangle : ℕ → ℤ → ℤ → ℤ → ℤ → List Fill
unfolding clip fill_lines
clear_rectangle color x y w h =
    let (left, width) = clip x w 320 in
    let (top, height) = clip y h 480 in
    if width == 0 || height == 0 then [] else fill_lines color left width top height

-- `TW_ClearVideoScreen`.
pub clear_screen : ℕ → List Fill
clear_screen color = record { offset = 0; color = color; words = 320 * 480 } ∷ []
