-- ===== src/Lcd.antt =====
-- st7735.rs: drawing on the display, above the calls of the C driver and the sending of bytes.
pub mod Text
pub mod Fill
pub mod Overflow
pub mod Glyph
pub mod Print
pub mod Silent
mod Tests
use stm32f3_oscilloscope.Prelude.{
  ℕ, zero, suc, ◌/◌, ◌%◌, ◌^◌, Option, none, some, List, [], ◌∷◌, ◌++◌, if◌then◌else◌, bit_and,
}
use stm32f3_oscilloscope.Prelude.Int.{ℤ, pos, pos_part, leb_ℤ}
use stm32f3_oscilloscope.Prelude.Word.{
  Build, Result, ok, panic, ◌>>=◌, add_i16, sub_i16, mul_i16, as_u8,
}
use stm32f3_oscilloscope.Device.{
  Action, lcd, init_r, set_rotation, fill_screen, draw_pixel, draw_fast_h_line, draw_fast_v_line,
  set_addr_window, send_data,
}

-- What `st7735_get_width` and `st7735_get_height` return: the C driver's, of type `u8`.
pub record Panel : Type 0 where
  pub width : ℕ
  pub height : ℕ

-- What they return after `st7735_setRotation(3)`.
abbrev pub landscape : Panel
landscape = record { width = 160; height = 128 }

pub data St7735Type : Type 0 where
  green_tab red_tab black_tab : St7735Type

-- `lcd_type as u8`
abbrev pub tab_code : St7735Type → ℕ
tab_code green_tab = 0
tab_code red_tab = 1
tab_code black_tab = 2

pub data Color : Type 0 where
  black blue green red white : Color

-- `color as u16`
abbrev pub color_code : Color → ℕ
color_code black = 0
color_code blue = 0x001f
color_code green = 0x07e0
color_code red = 0xf800
color_code white = 0xffff

-- The wrappers of the C driver's functions.
abbrev pub st7735_init_r : ℕ → Action
st7735_init_r lcd_type = lcd (init_r lcd_type)

abbrev pub st7735_draw_fast_h_line : ℤ → ℤ → ℤ → ℕ → Action
st7735_draw_fast_h_line x y w color = lcd (draw_fast_h_line x y w color)

abbrev pub st7735_draw_fast_v_line : ℤ → ℤ → ℤ → ℕ → Action
st7735_draw_fast_v_line x y h color = lcd (draw_fast_v_line x y h color)

abbrev pub st7735_draw_pixel : ℤ → ℤ → ℕ → Action
st7735_draw_pixel x y color = lcd (draw_pixel x y color)

abbrev pub st7735_fill_screen : ℕ → Action
st7735_fill_screen color = lcd (fill_screen color)

abbrev pub st7735_set_addr_window : ℕ → ℕ → ℕ → ℕ → Action
st7735_set_addr_window x0 y0 x1 y1 = lcd (set_addr_window x0 y0 x1 y1)

abbrev pub st7735_set_rotation : ℕ → Action
st7735_set_rotation rotation = lcd (set_rotation rotation)

abbrev pub st7735_get_height : Panel → ℕ
st7735_get_height p = p.height

abbrev pub st7735_get_width : Panel → ℕ
st7735_get_width p = p.width

abbrev pub send_color : ℕ → List Action
send_color color =
    lcd (send_data (color / 2 ^ 8 % 2 ^ 8)) ∷ lcd (send_data (bit_and color 0xff % 2 ^ 8)) ∷ []

unfoldable pub send_times : ℕ → ℕ → List Action
send_times zero color = []
send_times (suc n) color = send_color color ++ send_times n color

-- The clipping of `st7735_fill_rect` in one direction: the last coordinate and the size, or `none`
-- for its early return. The code has it twice, for `x` and for `y`.
pub clip : Build → ℤ → ℤ → ℤ → Result (Option (ℤ × ℤ))
clip b start size limit = do
  total ← add_i16 b start size
  last ← sub_i16 b total (pos 1)
  if leb_ℤ limit last
      then if leb_ℤ limit start then ok none else (do
        edge ← sub_i16 b limit (pos 1)
        room ← sub_i16 b limit start
        ok (some (edge, room)))
      else ok (some (last, size))

-- The window, and the loop that fills it.
pub fill_window : Build → ℤ → ℤ → ℤ × ℤ → ℤ × ℤ → ℕ → Result (List Action)
fill_window b x y (x_end, w) (y_end, h) color = do
  count ← mul_i16 b w h
  ok (
      st7735_set_addr_window (as_u8 x) (as_u8 y) (as_u8 x_end) (as_u8 y_end)
      ∷ send_times (pos_part count) color)

abbrev or_return {ℓ} : {A : Type ℓ} → Option A → (A → Result (List Action)) → Result (List Action)
or_return none k = ok []
or_return (some a) k = k a

unfoldable pub fill_rect : Build → Panel → ℤ → ℤ → ℤ → ℤ → ℕ → Result (List Action)
unfolding clip fill_window
fill_rect b p x y w0 h0 color = do
  columns ← clip b x w0 (pos (st7735_get_width p))
  or_return columns (λ (x_end, w). do
    rows ← clip b y h0 (pos (st7735_get_height p))
    or_return rows (λ (y_end, h). fill_window b x y (x_end, w) (y_end, h) color))
