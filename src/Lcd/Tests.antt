-- ===== src/Lcd/Tests.antt =====
-- A character in the corner of the panel, and a rectangle past the range of `i16`.
use stm32f3_oscilloscope.Font.{font_8x12}
use stm32f3_oscilloscope.Font.Distinct.{font_8x12-length}
use stm32f3_oscilloscope.Prelude.{◌≡◌, [], ◌∷◌, arith}
use stm32f3_oscilloscope.Prelude.Int.{pos}
use stm32f3_oscilloscope.Prelude.Word.{debug, release, ok, panic}
use stm32f3_oscilloscope.Device.{lcd, set_addr_window}
use stm32f3_oscilloscope.Lcd.{landscape, green, black, fill_rect, send_times}
use stm32f3_oscilloscope.Lcd.Text.{putc, print}
use stm32f3_oscilloscope.Lcd.Print.{putc-print}
use stm32f3_oscilloscope.Lcd.Overflow.{fill_rect-overflows}

-- The last column and row from which a character is whole.
putc-print_example :
    putc debug font_8x12 green black landscape 152 116 65
    ≡ print debug font_8x12 green black landscape (65 ∷ []) 152 116
putc-print_example =
    putc-print font_8x12 green black 116 debug landscape font_8x12-length (omega arith)
      (omega arith) (omega arith) 152 65 (omega arith)

fill_rect-overflows_example :
    (fill_rect debug landscape (pos 32767) (pos 127) (pos 2) (pos 1) 0 ≡ panic)
    × (fill_rect release landscape (pos 32767) (pos 127) (pos 2) (pos 1) 0
        ≡ ok (lcd (set_addr_window 255 127 0 127) ∷ send_times 2 0))
fill_rect-overflows_example =
    fill_rect-overflows 32767 127 2 1 0 (omega arith) (omega arith) (omega arith) (omega arith)
      (omega arith) (omega arith) (omega arith)
