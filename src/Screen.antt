-- ===== src/Screen.antt =====
-- What the display shows: the memory of its controller, which takes the data bytes that the drawing
-- of st7735.rs sends, and the calls of the C driver as a parameter.
pub mod Stream
pub mod Drawing
pub mod Writing
pub mod Aside
pub mod Marginal
pub mod Dark
pub mod Panel
pub mod Controller
pub mod Status
mod Press
mod Tests
use stm32f3_oscilloscope.Prelude.{
  ℕ, ◌+◌, ◌*◌, ◌^◌, ◌<◌, ◌≡◌, ◌&&◌, Option, none, some, List, [], ◌∷◌, ◌==◌, if◌then◌else◌,
}
use stm32f3_oscilloscope.Prelude.Int.{pos}
use stm32f3_oscilloscope.Device.{
  Action, modify, write, await, delay_ms, lcd, LcdCall, init_r, set_rotation, fill_screen,
  draw_pixel, set_addr_window, send_data,
}

-- The color of each pixel, by column and row.
abbrev pub Frame : Type 0
Frame = ℕ → ℕ → ℕ

-- The pixels, the window with its first and last column and row, the place in it of the next pixel,
-- and the first byte of a pixel whose second one is still to come.
pub record Screen : Type 0 where
  pub frame : Frame
  pub left : ℕ
  pub top : ℕ
  pub right : ℕ
  pub bottom : ℕ
  pub column : ℕ
  pub row : ℕ
  pub high : Option ℕ

abbrev pub put : ℕ → ℕ → ℕ → Frame → Frame
put x y color f i j = if i == x && (j == y) then color else f i j

-- The window is filled row by row, and from its start again after its end.
abbrev pub advance : Screen → Screen
advance s =
    if s.column == s.right
    then record s { column = s.left; row = if s.row == s.bottom then s.top else s.row + 1 }
    else record s { column = s.column + 1 }

abbrev pub take_byte : Option ℕ → ℕ → Screen → Screen
take_byte none byte s = record s { high = some byte }
take_byte (some high) byte s =
    advance (record s { frame = put s.column s.row (high * 2 ^ 8 + byte) s.frame; high = none })

-- The C driver, in the landscape rotation: a pixel on the panel is drawn, a window is opened at its
-- first pixel, and the whole panel is filled.
pub record Driver : Type 0 where
  pub call : LcdCall → Screen → Screen
  pub draws :
      (x y color : ℕ) (s : Screen)
      → x < 160
      → y < 128
      → color < 2 ^ 16
      → (call (draw_pixel (pos x) (pos y) color) s).frame ≡ put x y color s.frame
  pub opens :
      (x0 y0 x1 y1 : ℕ) (s : Screen)
      → call (set_addr_window x0 y0 x1 y1) s ≡ record {
        frame = s.frame;
        left = x0;
        top = y0;
        right = x1;
        bottom = y1;
        column = x0;
        row = y0;
        high = none;
      }
  pub clears :
      (color i j : ℕ) (s : Screen)
      → color < 2 ^ 16
      → i < 160
      → j < 128
      → (call (fill_screen color) s).frame i j ≡ color

module _ (d : Driver) where
  abbrev pub do_call : LcdCall → Screen → Screen
  do_call (send_data byte) s = take_byte s.high byte s
  do_call c s = d.call c s

  -- The display after a sequence of actions.
  abbrev pub show : List Action → Screen → Screen
  show [] s = s
  show (lcd c ∷ later) s = show later (do_call c s)
  show (a ∷ later) s = show later s
