-- ===== src/Lcd/Fill.antt =====
-- `st7735_fill_rect` of st7735.rs, on the panel and off it.
use stm32f3_oscilloscope.Prelude.{
  ℕ, ◌+◌, ◌-◌, ◌*◌, ◌^◌, ◌≤◌, ◌<◌, ◌≡◌, ◌⊎◌, min, some, none, [], ◌∷◌, inl, inr, leb, leb→le,
  leb→lt, Bool-cases, arith,
}
use stm32f3_oscilloscope.Prelude.Int.{pos, ◌+ℤ◌, ◌-ℤ◌, ◌*ℤ◌}
use stm32f3_oscilloscope.Prelude.Word.{Build, ok}
use stm32f3_oscilloscope.Device.{lcd, set_addr_window}
use stm32f3_oscilloscope.Lcd.{Panel, clip, fill_window, fill_rect, send_times}

module _ (b : Build) (start size limit : ℕ) (short : start + size < 2 ^ 15) (small : limit < 2 ^ 8)
    (some_size : 0 < size) where
  pub clip_inside :
      start < limit
      → clip b (pos start) (pos size) (pos limit)
        ≡ ok (some (pos (min (start + size) limit - 1), pos (min (start + size) limit - start)))
  unfolding clip ◌+ℤ◌ ◌-ℤ◌
  clip_inside h = ground arith

  clip_outside : limit ≤ start → clip b (pos start) (pos size) (pos limit) ≡ ok none
  unfolding clip ◌+ℤ◌ ◌-ℤ◌
  clip_outside h = ground arith

area-lt : (w h p q : ℕ) → w ≤ p → h ≤ q → p * q < 2 ^ 15 → w * h < 2 ^ 15
area-lt w h p q hw hh s = grind arith

fill_window_lem :
    (b : Build) (x y x_end w y_end h color : ℕ)
    → x < 2 ^ 8
    → y < 2 ^ 8
    → x_end < 2 ^ 8
    → y_end < 2 ^ 8
    → w * h < 2 ^ 15
    → fill_window b (pos x) (pos y) (pos x_end, pos w) (pos y_end, pos h) color
      ≡ ok (lcd (set_addr_window x y x_end y_end) ∷ send_times (w * h) color)
unfolding fill_window ◌*ℤ◌
fill_window_lem b x y x_end w y_end h color hx hy hx' hy' s = ground arith

-- On a panel of at most 32767 pixels with sides below 256, at a corner on it, and with a rectangle
-- that is not empty and whose ends are below 32768,
-- `st7735_fill_rect` returns in both builds. It opens one window, from the corner to the last
-- column and row that lie both in the rectangle and on the panel, and sends the color as often as
-- the window has pixels.
pub fill_rect-clipped :
    (b : Build) (p : Panel) (x y w h color : ℕ)
    → p.width < 2 ^ 8
    → p.height < 2 ^ 8
    → p.width * p.height < 2 ^ 15
    → x < p.width
    → y < p.height
    → 0 < w
    → 0 < h
    → x + w < 2 ^ 15
    → y + h < 2 ^ 15
    → let right = min (x + w) p.width in
      let bottom = min (y + h) p.height in
      fill_rect b p (pos x) (pos y) (pos w) (pos h) color
      ≡ ok (
          lcd (set_addr_window x y (right - 1) (bottom - 1))
          ∷ send_times ((right - x) * (bottom - y)) color)
unfolding fill_rect
fill_rect-clipped b p x y w h color pw ph area hx hy hw hh sx sy =
    rw (clip_inside b x w p.width sx pw hw hx, clip_inside b y h p.height sy ph hh hy)
      (fill_window_lem b x y (min (x + w) p.width - 1) (min (x + w) p.width - x)
        (min (y + h) p.height - 1) (min (y + h) p.height - y) color (omega arith) (omega arith)
        (omega arith) (omega arith)
        (area-lt (min (x + w) p.width - x) (min (y + h) p.height - y) p.width p.height (omega arith)
          (omega arith) area))

-- On a panel with sides below 256, a rectangle that is not empty, whose ends are below 32768 and
-- whose corner is off the panel, to the right or below, sends nothing and does not panic.
pub fill_rect-off_panel :
    (b : Build) (p : Panel) (x y w h color : ℕ)
    → p.width < 2 ^ 8
    → p.height < 2 ^ 8
    → (p.width ≤ x) ⊎ (p.height ≤ y)
    → 0 < w
    → 0 < h
    → x + w < 2 ^ 15
    → y + h < 2 ^ 15
    → fill_rect b p (pos x) (pos y) (pos w) (pos h) color ≡ ok []
unfolding fill_rect
fill_rect-off_panel b p x y w h color pw ph off hw hh sx sy = elim (Bool-cases (leb p.width x)) [
  | inl e ↦ rw (clip_outside b x w p.width sx pw hw (leb→le p.width x e))
  | inr e ↦
      let inside = leb→lt p.width x e in
      rw (
        clip_inside b x w p.width sx pw hw inside,
        clip_outside b y h p.height sy ph hh (omega arith),
      )
]
