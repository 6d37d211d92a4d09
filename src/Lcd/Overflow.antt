-- ===== src/Lcd/Overflow.antt =====
-- `st7735_fill_rect` of st7735.rs where a rectangle's end is past the range of `i16`.
use stm32f3_oscilloscope.Prelude.{ℕ, ◌+◌, ◌-◌, ◌*◌, ◌%◌, ◌^◌, ◌<◌, ◌≡◌, refl, min, some, ◌∷◌, arith}
use stm32f3_oscilloscope.Prelude.Int.{pos, negsuc, ◌+ℤ◌, ◌-ℤ◌, ◌*ℤ◌}
use stm32f3_oscilloscope.Prelude.Word.{debug, release, ok, panic, as_u8}
use stm32f3_oscilloscope.Device.{lcd, set_addr_window}
use stm32f3_oscilloscope.Lcd.{landscape, clip, fill_window, fill_rect, send_times}
use stm32f3_oscilloscope.Lcd.Fill.{clip_inside}

module _ (start size limit : ℕ) (hx : start < 2 ^ 15) (hw : size < 2 ^ 15)
    (far : 2 ^ 15 < start + size) where
  clip_debug : clip debug (pos start) (pos size) (pos limit) ≡ panic
  unfolding clip ◌+ℤ◌ ◌-ℤ◌
  clip_debug = ground arith

  -- The last column comes out negative, so that nothing is clipped.
  clip_release :
      clip release (pos start) (pos size) (pos limit)
      ≡ ok (some (negsuc (2 ^ 16 - (start + size)), pos size))
  unfolding clip ◌+ℤ◌ ◌-ℤ◌
  clip_release = ground arith

as_u8_wrapped :
    (x w : ℕ)
    → 2 ^ 15 < x + w
    → x + w < 2 ^ 16
    → as_u8 (negsuc (2 ^ 16 - (x + w))) ≡ (x + w - 1) % 2 ^ 8
as_u8_wrapped x w h h' = omega arith

fill_window_wrapped :
    (x y w y_end h color : ℕ)
    → x < 2 ^ 15
    → w < 2 ^ 15
    → 2 ^ 15 < x + w
    → y < 2 ^ 8
    → y_end < 2 ^ 8
    → w * h < 2 ^ 15
    → fill_window release
        (pos x)
        (pos y)
        (negsuc (2 ^ 16 - (x + w)), pos w)
        (pos y_end, pos h)
        color
      ≡ ok (
          lcd (set_addr_window (x % 2 ^ 8) y ((x + w - 1) % 2 ^ 8) y_end)
          ∷ send_times (w * h) color)
unfolding fill_window ◌*ℤ◌
fill_window_wrapped x y w y_end h color hx hw far hy hy' s =
    rw (as_u8_wrapped x w far (omega arith)) (ground arith)

-- On the landscape panel, for a rectangle whose first column and width are below 32768 and whose
-- right end is past 32768, that starts in a row of the panel, is not empty, has its lower end below
-- 32768, and has fewer than 32768 pixels in its whole width and the rows on the panel:
-- `st7735_fill_rect` panics in a debug build. In a release build it does not clip the width, and
-- does not notice a corner to the right of the panel: it opens a window with its columns modulo
-- 256, and sends as many pixels as the whole width has in the rows on the panel.
pub fill_rect-overflows :
    (x y w h color : ℕ)
    → x < 2 ^ 15
    → w < 2 ^ 15
    → 2 ^ 15 < x + w
    → y < 128
    → 0 < h
    → y + h < 2 ^ 15
    → w * (min (y + h) 128 - y) < 2 ^ 15
    → let bottom = min (y + h) 128 in
      (fill_rect debug landscape (pos x) (pos y) (pos w) (pos h) color ≡ panic)
      × (fill_rect release landscape (pos x) (pos y) (pos w) (pos h) color
          ≡ ok (
              lcd (set_addr_window (x % 2 ^ 8) y ((x + w - 1) % 2 ^ 8) (bottom - 1))
              ∷ send_times (w * (bottom - y)) color))
unfolding fill_rect
fill_rect-overflows x y w h color hx hw far hy tall sy area = (
  rw (clip_debug x w 160 hx hw far) refl,
  rw (clip_release x w 160 hx hw far, clip_inside release y h 128 sy (omega arith) tall hy)
      (fill_window_wrapped x y w (min (y + h) 128 - 1) (min (y + h) 128 - y) color hx hw far
        (omega arith) (omega arith) area),
)
