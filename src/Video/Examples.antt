-- ===== src/Video/Examples.antt =====
-- The theorems about colours and rectangles at concrete ones.
use libtwilight.Prelude.Int.{pos, negsuc}
use libtwilight.Prelude.{◌≡◌, refl, [], ◌∷◌, arith}
use libtwilight.Video.{clear_rectangle, yuv_to_rgb}
use libtwilight.Video.Frame.{AllInFrame, clear_rectangle-AllInFrame}

clear_rectangle-AllInFrame_example :
    AllInFrame (clear_rectangle 7 (negsuc 4) (pos 470) (pos 1000) (pos 30))
clear_rectangle-AllInFrame_example =
    clear_rectangle-AllInFrame 7 (negsuc 4) (pos 470) (pos 1000) (pos 30) (omega arith)
      (omega arith)

-- Ten words from the largest `int` on: the end overflows, so that the line is not cut off.
beyond_the_right :
    clear_rectangle 7 (pos 2147483647) (pos 0) (pos 10) (pos 1)
    ≡ record { offset = 2147483647; color = 7; words = 10 } ∷ []
unfolding clear_rectangle
beyond_the_right = refl

-- White is white, but a negative green fills the byte above the red one.
white : yuv_to_rgb 255 0 0 ≡ 0xffffff
unfolding yuv_to_rgb
white = refl

negative_green : yuv_to_rgb 0 127 0 ≡ 0xffffe50e
unfolding yuv_to_rgb
negative_green = refl
