-- ===== src/Video/Colour.antt =====
-- TW_RgbaToYuyv.
use libtwilight.Prelude.{
  ℕ, ◌+◌, ◌-◌, ◌*◌, ◌/◌, ◌%◌, ◌^◌, ◌≤◌, ◌<◌, ◌≡◌, refl, ◌∙◌, bit_or, arith, true, lt→ltb, ltb,
}
use libtwilight.Prelude.Bits.{bit_or_concat}
use libtwilight.Prelude.Int.{ℤ, pos, negsuc, clamp, quotient, signed32, add}
use libtwilight.Video.{channel, rgba_to_yuyv}

grey_luma : (v : ℕ) → v ≤ 255 → channel (2126 * v + 7152 * v + 722 * v) 0 ≡ v
unfolding channel
grey_luma v h =
    let sum : (2126 * v + 7152 * v + 722 * v) % 2 ^ 32 ≡ v * 10000 = omega arith in
    let small : ltb (v * 10000) (2 ^ 31) ≡ true = lt→ltb (v * 10000) (2 ^ 31) (omega arith) in
    rw (sum, small) (ground arith)

grey_blue : (v : ℕ) → channel ((2 ^ 32 - 999) * v + (2 ^ 32 - 3361) * v + 4360 * v) 128 ≡ 128
unfolding channel
grey_blue v =
    let sum : ((2 ^ 32 - 999) * v + (2 ^ 32 - 3361) * v + 4360 * v) % 2 ^ 32 ≡ 0 = omega arith in
    rw sum refl

grey_red : (v : ℕ) → channel (6150 * v + (2 ^ 32 - 5586) * v + (2 ^ 32 - 564) * v) 128 ≡ 128
unfolding channel
grey_red v =
    let sum : (6150 * v + (2 ^ 32 - 5586) * v + (2 ^ 32 - 564) * v) % 2 ^ 32 ≡ 0 = omega arith in
    rw sum refl

packed :
    (y u v : ℕ)
    → y < 256
    → u < 256
    → v < 256
    → bit_or (bit_or (bit_or (y * 2 ^ 24) (u * 2 ^ 16)) (y * 2 ^ 8)) v
      ≡ y * 2 ^ 24 + u * 2 ^ 16 + y * 2 ^ 8 + v
packed y u v hy hu hv =
    let first : bit_or (y * 2 ^ 24) (u * 2 ^ 16) ≡ (y * 2 ^ 8 + u) * 2 ^ 16 =
      bit_or_concat 24 y (u * 2 ^ 16) (omega arith) ∙ omega arith in
    let second : bit_or ((y * 2 ^ 8 + u) * 2 ^ 16) (y * 2 ^ 8)
        ≡ (y * 2 ^ 16 + u * 2 ^ 8 + y) * 2 ^ 8 =
      bit_or_concat 16 (y * 2 ^ 8 + u) (y * 2 ^ 8) (omega arith) ∙ omega arith in
    rw (first, second) (bit_or_concat 8 (y * 2 ^ 16 + u * 2 ^ 8 + y) v hv ∙ omega arith)

-- A grey of any level from 0 to 255 has that level as both its luma bytes and the neutral chroma 128.
pub rgba_to_yuyv-grey :
    (v a : ℕ) → v ≤ 255 → rgba_to_yuyv v v v a ≡ v * 2 ^ 24 + 128 * 2 ^ 16 + v * 2 ^ 8 + 128
unfolding rgba_to_yuyv
rgba_to_yuyv-grey v a h =
    rw (grey_luma v h, grey_blue v, grey_red v)
      (packed v 128 128 (omega arith) (omega arith) (omega arith))

clamp-le : (top : ℕ) (n : ℤ) → clamp top n ≤ top
clamp-le top (pos n) = ground arith
clamp-le top (negsuc n) = omega arith

channel-lt : (sum offset : ℕ) → channel sum offset < 256
unfolding channel
channel-lt sum offset =
    omega (arith, clamp-le 255 (add (quotient (signed32 (sum % 2 ^ 32)) 10000) (pos offset)))

-- Of any three words, out of range or overflowing ones too, TW_RgbaToYuyv makes one 32-bit word that
-- packs the luma byte, a chroma byte, the same luma byte and the other chroma byte.
rgba_to_yuyv-packed :
    (r g b a : ℕ)
    → let word = rgba_to_yuyv r g b a in
      (word < 2 ^ 32)
      × (word / 2 ^ 24 ≡ word / 2 ^ 8 % 2 ^ 8)
      × (word / 2 ^ 24 ≡ channel (2126 * r + 7152 * g + 722 * b) 0)
unfolding rgba_to_yuyv
rgba_to_yuyv-packed r g b a =
    let y = channel (2126 * r + 7152 * g + 722 * b) 0 in
    let u = channel ((2 ^ 32 - 999) * r + (2 ^ 32 - 3361) * g + 4360 * b) 128 in
    let v = channel (6150 * r + (2 ^ 32 - 5586) * g + (2 ^ 32 - 564) * b) 128 in
    let hy : y < 256 = channel-lt (2126 * r + 7152 * g + 722 * b) 0 in
    let hu : u < 256 = channel-lt ((2 ^ 32 - 999) * r + (2 ^ 32 - 3361) * g + 4360 * b) 128 in
    let hv : v < 256 = channel-lt (6150 * r + (2 ^ 32 - 5586) * g + (2 ^ 32 - 564) * b) 128 in
    let word = packed y u v hy hu hv in
    (
      omega (arith, word, hy, hu, hv),
      omega (arith, word, hy, hu, hv),
      omega (arith, word, hy, hu, hv),
    )
