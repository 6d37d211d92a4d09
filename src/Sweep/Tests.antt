-- ===== src/Sweep/Tests.antt =====
-- The plotting of the highest conversion.
use stm32f3_oscilloscope.Prelude.{◌≡◌, arith}
use stm32f3_oscilloscope.Prelude.Int.{ℤ, pos, negsuc}
use stm32f3_oscilloscope.Prelude.Word.{debug, ok}
use stm32f3_oscilloscope.Lcd.{red}
use stm32f3_oscilloscope.Sweep.{row_of, plot, pixel}
use stm32f3_oscilloscope.Sweep.Plot.{plot-plotted_row}

plot-plotted_row_example :
    (y : ℤ) × (row_of debug 4095 ≡ ok y)
    × (plot 17 y ≡ (pixel (pos 17) (pos 0) red, 0))
    × (y ≡ negsuc 0)
plot-plotted_row_example = plot-plotted_row debug 17 4095 (omega arith)
