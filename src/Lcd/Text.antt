-- ===== src/Lcd/Text.antt =====
-- The text printing of st7735.rs. The font table is a parameter: 12 bytes for each of 128 characters.
use stm32f3_oscilloscope.Prelude.{
  ℕ, zero, suc, ◌+◌, ◌*◌, ◌/◌, List, [], ◌∷◌, ◌++◌, ltb, leb, ◌==◌, if◌then◌else◌, bit_and,
}
use stm32f3_oscilloscope.Prelude.Word.{Build, Result, ok, ◌>>=◌, index, add_u8, sub_u8}
use stm32f3_oscilloscope.Device.{Action}
use stm32f3_oscilloscope.Lcd.{
  Panel, Color, st7735_set_addr_window, st7735_get_width, st7735_get_height, color_code, send_color,
}

module _ (b : Build) (font : List ℕ) (fg bg : Color) where
  -- The inner loop, with `left` pixels of the row to go.
  unfoldable pub send_row : ℕ → ℕ → List Action
  send_row zero bits = []
  send_row (suc left) bits =
      send_color (if bit_and bits 1 == 1 then color_code fg else color_code bg)
      ++ send_row left (bits / 2)

  -- The outer loop, from row `yrow`.
  unfoldable pub send_rows : ℕ → ℕ → ℕ → Result (List Action)
  unfolding send_row
  send_rows c zero yrow = ok []
  send_rows c (suc left) yrow = do
    bits ← index font (c * 12 + yrow)
    rest ← send_rows c left (yrow + 1)
    ok (send_row 8 bits ++ rest)

  unfoldable pub putc_unchecked : ℕ → ℕ → ℕ → Result (List Action)
  unfolding send_rows
  putc_unchecked x y c = if leb 128 c then ok [] else (do
    right ← add_u8 b x 7
    bottom ← add_u8 b y 11
    glyph ← send_rows c 12 0
    ok (st7735_set_addr_window x y right bottom ∷ glyph))

  unfoldable pub putc : Panel → ℕ → ℕ → ℕ → Result (List Action)
  unfolding putc_unchecked
  putc p x y c = do
    last_x ← sub_u8 b (st7735_get_width p) 8
    if ltb last_x x then ok [] else (do
      last_y ← sub_u8 b (st7735_get_height p) 12
      if ltb last_y y then ok [] else putc_unchecked x y c)

  -- The loop over the text, from column `x`.
  unfoldable pub print_from : Panel → ℕ → List ℕ → ℕ → Result (List Action)
  unfolding putc_unchecked
  print_from p y [] x = ok []
  print_from p y (c ∷ text) x = do
    last_x ← sub_u8 b (st7735_get_width p) 8
    if ltb last_x x then ok [] else (do
      glyph ← putc_unchecked x y c
      x' ← add_u8 b x 8
      rest ← print_from p y text x'
      ok (glyph ++ rest))

  unfoldable pub print : Panel → List ℕ → ℕ → ℕ → Result (List Action)
  unfolding print_from
  print p text x0 y = do
    last_y ← sub_u8 b (st7735_get_height p) 12
    if ltb last_y y then ok [] else print_from p y text x0
