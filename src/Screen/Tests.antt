-- ===== src/Screen/Tests.antt =====
-- A rectangle that is partly off the panel, a text that is cut off at the right edge, and a press of
-- each button, on a display that is dark at first.
use stm32f3_oscilloscope.Font.{font_8x12}
use stm32f3_oscilloscope.Font.Distinct.{font_8x12-length}
use stm32f3_oscilloscope.Prelude.{
  ◌*◌, ℕ, ◌+◌, ◌-◌, ◌/◌, ◌<◌, ◌≤◌, ◌≡◌, refl, List, [], ◌∷◌, take, leb, if◌then◌else◌, arith,
}
use stm32f3_oscilloscope.Prelude.Int.{pos}
use stm32f3_oscilloscope.Prelude.Word.{debug, release, ok}
use stm32f3_oscilloscope.Device.{Action, write, tim2_arr}
use stm32f3_oscilloscope.Lcd.{landscape, green, black, fill_rect}
use stm32f3_oscilloscope.Lcd.Text.{print}
use stm32f3_oscilloscope.Settings.{bytes}
use stm32f3_oscilloscope.Interrupts
use stm32f3_oscilloscope.Interrupts.{Shared, ticks}
use stm32f3_oscilloscope.Sweep
use stm32f3_oscilloscope.Controls.{next_siggen_freq, check_button}
use stm32f3_oscilloscope.Screen.{show}
use stm32f3_oscilloscope.Screen.Status.{frequency_pixel}
use stm32f3_oscilloscope.Screen.Press.{press-tunes}
use stm32f3_oscilloscope.Screen.Stream.{in_rect}
use stm32f3_oscilloscope.Screen.Drawing.{fill_rect-shows}
use stm32f3_oscilloscope.Screen.Writing.{line_pixel, print-shows}
use stm32f3_oscilloscope.Screen.Panel.{panel, dark_screen}

fill_rect-shows_example :
    (actions : List Action) × (fill_rect debug landscape
        (pos 150)
        (pos 120)
        (pos 20)
        (pos 20)
        0xf800
      ≡ ok actions)
    × ((i j : ℕ)
        → i < 160
        → j < 128
        → (show panel actions dark_screen).frame i j
          ≡ (if in_rect 150 120 20 20 i j then 0xf800 else dark_screen.frame i j))
fill_rect-shows_example =
    fill_rect-shows panel dark_screen debug 150 120 20 20 0xf800 (omega arith) (omega arith)
      (omega arith) (omega arith) (omega arith)

print-shows_example :
    (actions : List Action) × (print debug font_8x12 green black landscape (bytes "OVR set") 140 104
      ≡ ok actions)
    × ((i j : ℕ)
        → (show panel actions dark_screen).frame i j ≡ (
            if leb (104 + 12) 128
            then line_pixel font_8x12 green black
                (take ((160 - 140) / 8) (bytes "OVR set"))
                140
                104
                i
                j
                (dark_screen.frame i j)
            else dark_screen.frame i j))
print-shows_example =
    print-shows font_8x12 green black panel debug (bytes "OVR set") 140 104 dark_screen
      font_8x12-length

press-tunes_example :
    (shared' : Shared) × (arr : ℕ) × (drawing : List Action) × (check_button 3
        (0x7000 ∷ [])
        []
        (next_siggen_freq release landscape font_8x12)
        (ticks (0x7000 ∷ []) Interrupts.start)
        Sweep.start
      ≡ ok (
        shared',
        record Sweep.start { siggen_freq_index = 7 },
        write ((tim2_arr, arr) ∷ []) ∷ drawing,
      ))
    × ((arr + 1) * 144 * 3333 ≤ 36_000_000)
    × (36_000_000 < (arr + 2) * 144 * 3333)
    × ((x y : ℕ)
        → x < 160
        → y < 128
        → (show panel (write ((tim2_arr, arr) ∷ []) ∷ drawing) dark_screen).frame x y
          ≡ frequency_pixel font_8x12 (bytes "3.3kHz") x y (dark_screen.frame x y))
press-tunes_example =
    press-tunes release font_8x12 panel dark_screen Sweep.start Interrupts.start 0x7000 []
      (0x7000 ∷ []) [] font_8x12-length refl refl refl (refl, tt) (refl, tt) tt
