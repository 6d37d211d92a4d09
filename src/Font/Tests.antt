-- ===== src/Font/Tests.antt =====
-- Texts and labels in the font of parallax_8x12_font.rs on a dark display.
use stm32f3_oscilloscope.Prelude.{ℕ, zero, suc, ◌+◌, ◌*◌, ◌<◌, ◌≤◌, ◌≡◌, refl, List, [], ◌∷◌, arith}
use stm32f3_oscilloscope.Prelude.Word.{debug, ok}
use stm32f3_oscilloscope.Device.{Action}
use stm32f3_oscilloscope.Lcd.{green, black, landscape}
use stm32f3_oscilloscope.Lcd.Text.{print}
use stm32f3_oscilloscope.Settings.{set_siggen_freq_from_index, set_capture_timebase_from_index}
use stm32f3_oscilloscope.Screen.{show}
use stm32f3_oscilloscope.Screen.Panel.{panel, dark_screen}
use stm32f3_oscilloscope.Font.{font_8x12}
use stm32f3_oscilloscope.Font.Readable.{print-readable}
use stm32f3_oscilloscope.Font.Labels.{timebase-told, frequency-told}

-- "1s", and another text.
abbrev label : List ℕ
label = 49 ∷ 115 ∷ []

abbrev other_label : List ℕ
other_label = 108 ∷ 83 ∷ []

print-readable_example :
    (actions : List Action) × (actions' : List Action) × (print debug font_8x12 green black
        landscape label 144 116
      ≡ ok actions)
    × (print debug font_8x12 green black landscape other_label 144 116 ≡ ok actions')
    × (((i j : ℕ)
          → 144 ≤ i
          → i < 144 + 8 * 2
          → 116 ≤ j
          → j < 116 + 12
          → (show panel actions dark_screen).frame i j
            ≡ (show panel actions' dark_screen).frame i j)
        → label ≡ other_label)
print-readable_example =
    print-readable panel debug green black label other_label 144 116 dark_screen dark_screen
      (λ e. omega arith) refl (omega arith, (omega arith, tt)) (omega arith, (omega arith, tt))
      (omega arith) (omega arith)

-- "1s" and ".5s", and the first and the last frequency.
timebase-told_example :
    (actions : List Action) × (actions' : List Action) × (set_capture_timebase_from_index debug
        landscape font_8x12 1
      ≡ ok actions)
    × (set_capture_timebase_from_index debug landscape font_8x12 2 ≡ ok actions')
    × (((x y : ℕ)
          → x < 160
          → 116 ≤ y
          → y < 128
          → (show panel actions dark_screen).frame x y
            ≡ (show panel actions' dark_screen).frame x y)
        → suc zero ≡ 2)
timebase-told_example =
    timebase-told panel debug 1 2 dark_screen dark_screen (omega arith) (omega arith)

frequency-told_example :
    (actions : List Action) × (actions' : List Action) × (set_siggen_freq_from_index debug landscape
        font_8x12 0
      ≡ ok actions)
    × (set_siggen_freq_from_index debug landscape font_8x12 8 ≡ ok actions')
    × (((x y : ℕ)
          → x < 160
          → 116 ≤ y
          → y < 128
          → (show panel actions dark_screen).frame x y
            ≡ (show panel actions' dark_screen).frame x y)
        → zero ≡ 8)
frequency-told_example =
    frequency-told panel debug 0 8 dark_screen dark_screen (omega arith) (omega arith)
