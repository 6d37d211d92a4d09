-- ===== src/Settings/Tests.antt =====
-- The settings at one index past a table.
use stm32f3_oscilloscope.Font.{font_8x12}
use stm32f3_oscilloscope.Font.Distinct.{font_8x12-length}
use stm32f3_oscilloscope.Prelude.{◌≤◌, ◌≡◌, ◌↔◌, length}
use stm32f3_oscilloscope.Prelude.Word.{debug, panic}
use stm32f3_oscilloscope.Lcd.{landscape}
use stm32f3_oscilloscope.Settings.{
  siggen_frequencies, timebase_intervals, set_siggen_freq_from_index,
  set_capture_timebase_from_index,
}
use stm32f3_oscilloscope.Settings.Errors.{settings-panic}

-- The first index past the table of frequencies, which is not past the other.
settings-panic_example :
    ((set_siggen_freq_from_index debug landscape font_8x12 9 ≡ panic)
      ↔ (length siggen_frequencies ≤ 9))
    × ((set_capture_timebase_from_index debug landscape font_8x12 9 ≡ panic)
        ↔ (length timebase_intervals ≤ 9))
settings-panic_example = settings-panic debug font_8x12 font_8x12-length 9
