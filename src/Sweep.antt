-- ===== src/Sweep.antt =====
-- The sweep of main.rs: the state of the main loop, and its three-way match.
pub mod Plot
mod Tests
use stm32f3_oscilloscope.Prelude.{
  ℕ, ◌+◌, ◌/◌, ◌%◌, Bool, true, false, ◌&&◌, List, [], ◌∷◌, ◌++◌, ltb, leb, ◌==◌, if◌then◌else◌,
  set, replicate, length, ◌^◌,
}
use stm32f3_oscilloscope.Prelude.Int.{ℤ, pos, ltb_ℤ}
use stm32f3_oscilloscope.Prelude.Word.{
  Build, debug, release, Result, ok, ◌>>=◌, index, div, mul_u32, sub_i16, as_u8, signed16,
}
use stm32f3_oscilloscope.Device.{Action, Registers, gpioe_odr}
use stm32f3_oscilloscope.Led.{ld3, ld5, led_on, led_toggle}
use stm32f3_oscilloscope.Capture.{
  begin_sweep, get_transferred_sample_count, finish_sweep, check_adc_ovr_flag,
}
use stm32f3_oscilloscope.Lcd.{Panel, Color, st7735_draw_pixel, black, green, red, white, color_code}
use stm32f3_oscilloscope.Lcd.Text.{print}
use stm32f3_oscilloscope.Settings.{bytes, timebase_intervals}

pub data SweepState : Type 0 where
  before during after : SweepState

-- The local variables of `main` that the loop keeps.
pub record Scope : Type 0 where
  pub state : SweepState
  pub siggen_freq_index : ℕ
  pub timebase_index : ℕ
  pub previous_y : List ℕ
  pub x_out : ℕ

abbrev pub start : Scope
start = record {
  state = before;
  siggen_freq_index = 6;
  timebase_index = length timebase_intervals / 2;
  previous_y = replicate 160 255;
  x_out = 0;
}

abbrev pub pixel : ℤ → ℤ → Color → Action
pixel x y c = st7735_draw_pixel x y (color_code c)

-- Erasing the old plot in a column: a point of the graticule is put back, in green.
unfoldable pub erase : ℕ → ℕ → List Action
erase x y =
    if ltb y 255
    then (if x % 32 == 0 && y % 32 == 0
        then pixel (pos x) (pos y) green ∷ []
        else pixel (pos x) (pos y) black ∷ [])
    else []

-- The row of a conversion, before the clipping.
pub row_of : Build → ℕ → Result ℤ
row_of b raw_conversion = do
  microvolts ← mul_u32 b raw_conversion 806
  rows ← div microvolts 25_781
  sub_i16 b (pos 127) (signed16 (rows % 2 ^ 16))

-- The pixel to plot in column `x`, and the row to remember for it.
pub plot : ℕ → ℤ → Action × ℕ
plot x y =
    if ltb_ℤ y (pos 0)
    then (pixel (pos x) (pos 0) red, 0)
    else if ltb_ℤ (pos 127) y
    then (pixel (pos x) (pos 127) red, 127)
    else (pixel (pos x) y white, as_u8 y)

module _ (b : Build) (r : Registers) (captured : List ℕ) where
  -- The arm of `SweepState::During`; `captured` is the buffer that the DMA fills.
  unfoldable pub sweep_during : Scope → Result (Scope × List Action)
  unfolding erase row_of plot
  sweep_during s = do
    x_in ← get_transferred_sample_count b r
    if ltb s.x_out x_in
        then (do
          old ← index s.previous_y s.x_out
          raw_conversion ← index captured s.x_out
          y ← row_of b raw_conversion
          let (drawn, row) = plot s.x_out y
          let x = s.x_out + 1
          ok (
            record s {
              previous_y = set s.previous_y s.x_out row;
              x_out = x;
              state = if leb 160 x then after else s.state;
            },
            erase s.x_out old ++ (drawn ∷ []),
          ))
        else ok (s, [])

-- The warning that only a debug build prints.
unfoldable pub report_overrun : Build → Panel → List ℕ → Bool → Result (List Action)
report_overrun debug p font true = print debug font green black p (bytes "OVR set") 0 104
report_overrun _ p font _ = ok []

module _ (b : Build) (p : Panel) (font : List ℕ) (r : Registers) (captured : List ℕ) where
  unfoldable pub sweep_after : Scope → Result (Scope × List Action)
  unfolding report_overrun
  sweep_after s = do
    let (ovr, cleared) = check_adc_ovr_flag r
    warning ← report_overrun b p font ovr
    ok (
      record s { state = before },
      finish_sweep ++ (cleared ++ (warning ++ led_toggle ld5 (r gpioe_odr))),
    )

  unfoldable pub sweep_from : SweepState → Scope → Result (Scope × List Action)
  sweep_from before s = ok (record s { state = during; x_out = 0 }, begin_sweep ++ led_on ld3)
  sweep_from during s = sweep_during b r captured s
  sweep_from after s = sweep_after s

  -- One pass through the match.
  unfoldable pub sweep : Scope → Result (Scope × List Action)
  unfolding sweep_from
  sweep s = sweep_from s.state s
