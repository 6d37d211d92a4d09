-- ===== src/Boot.antt =====
-- The preparation of the main loop in main.rs: everything between the setup of the display's
-- connection and the loop.
pub mod Start
pub mod Drawn
pub mod Armed
pub mod Started
pub mod Graticule
mod Tests
use stm32f3_oscilloscope.Prelude.{
  ℕ, zero, suc, ◌+◌, ◌/◌, List, [], ◌∷◌, ◌++◌, length, leb, if◌then◌else◌,
}
use stm32f3_oscilloscope.Prelude.Int.{ℤ, pos, ◌-ℤ◌}
use stm32f3_oscilloscope.Prelude.Word.{Build, Result, ok, ◌>>=◌}
use stm32f3_oscilloscope.Device.{Action, Addresses, delay_ms}
use stm32f3_oscilloscope.Led.{ld4, led_on}
use stm32f3_oscilloscope.Siggen.Configure.{siggen_setup}
use stm32f3_oscilloscope.Capture.Configure
use stm32f3_oscilloscope.Lcd.{
  red_tab, tab_code, Panel, st7735_init_r, st7735_set_rotation, st7735_fill_screen, green, black,
  red, color_code,
}
use stm32f3_oscilloscope.Lcd.Text.{print}
use stm32f3_oscilloscope.Settings.{
  bytes, timebase_intervals, set_siggen_freq_from_index, set_capture_timebase_from_index,
}
use stm32f3_oscilloscope.Sweep
use stm32f3_oscilloscope.Sweep.{Scope, pixel}

-- The inner loop, from `y` on, with fuel.
pub paint_column : ℕ → ℕ → ℕ → List Action
paint_column zero x y = []
paint_column (suc fuel) x y =
    let rest = paint_column fuel x (y + 32) in
    if leb y 96 then pixel (pos x) (pos 127 -ℤ pos y) red ∷ rest else []

-- The outer loop, from `x` on, with fuel.
pub paint_columns : ℕ → ℕ → List Action
unfolding paint_column
paint_columns zero x = []
paint_columns (suc fuel) x =
    let rest = paint_columns fuel (x + 32) in if leb x 128 then paint_column 4 x 32 ++ rest else []

-- The fuel is for five tests of the outer loop's condition and four of the inner one's.
pub graticule : List Action
unfolding paint_columns
graticule = paint_columns 5 32

-- What is done before the main loop, and the variables that it starts with.
unfoldable pub prepare : Build → Panel → List ℕ → Addresses → Result (Scope × List Action)
unfolding graticule
prepare b p font a = do
  title ← print b font green black p (bytes "stm-scope") 0 0
  generator ← siggen_setup b a
  capture ← Configure.setup b a
  frequency ← set_siggen_freq_from_index b p font Sweep.start.siggen_freq_index
  timebase ← set_capture_timebase_from_index b p font Sweep.start.timebase_index
  ok (
    Sweep.start,
    (delay_ms 50
          ∷ st7735_init_r (tab_code red_tab)
          ∷ st7735_set_rotation 3
          ∷ st7735_fill_screen (color_code black)
          ∷ (title ++ generator))
        ++ (capture ++ (led_on ld4 ++ (graticule ++ (frequency ++ timebase)))),
  )
