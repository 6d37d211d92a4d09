-- ===== src/Boot/Tests.antt =====
-- The start of `main` with the addresses of the chip, and one point of the graticule.
use stm32f3_oscilloscope.Font.{font_8x12}
use stm32f3_oscilloscope.Font.Distinct.{font_8x12-length}
use stm32f3_oscilloscope.Prelude.{
  ℕ, ◌≡◌, false, ◌≢◌, ◌⊎◌, ◌≤◌, ◌<◌, refl, none, some, List, [], ◌∷◌, ◌++◌, All, replicate, arith,
}
use stm32f3_oscilloscope.Prelude.Int.{pos}
use stm32f3_oscilloscope.Prelude.Word.{debug, ok}
use stm32f3_oscilloscope.Device.{Action, Addresses, Registers, run, dma1_ccr1_en, dma1_cndtr1}
use stm32f3_oscilloscope.Lcd.{landscape, black, red}
use stm32f3_oscilloscope.Screen.{Screen, Driver, show}
use stm32f3_oscilloscope.Screen.Controller.Order.{IsOrderly}
use stm32f3_oscilloscope.Screen.Dark.{IsDark}
use stm32f3_oscilloscope.Sweep
use stm32f3_oscilloscope.Sweep.{pixel, erase}
use stm32f3_oscilloscope.Boot.{graticule}
use stm32f3_oscilloscope.Boot.Start.{software, boot}
use stm32f3_oscilloscope.Boot.Started.{IsClocked, boot-armed}
use stm32f3_oscilloscope.Boot.Graticule.{graticule-erase}

abbrev linked : Addresses
linked = record {
  dac_dhr12r2 = 0x4000_7414;
  dac_dhr8r1 = 0x4000_7410;
  adc1_dr = 0x5000_0040;
  sine_12bit = 0x0800_0200;
  ramp_8bit = 0x0800_0400;
  capture_channel_1 = 0x2000_0000;
}

abbrev reset_state : Registers
reset_state f = 0

boot-armed_example :
    ((hserdy : ℕ)
      → 2 < 1280
      → hserdy ≢ 0
      → (actions : List Action) × (boot debug landscape font_8x12 linked software
            (replicate 2 0 ++ hserdy ∷ [])
            reset_state
          ≡ some (ok (Sweep.start, actions)))
        × (run actions reset_state dma1_ccr1_en ≡ 0)
        × (run actions reset_state dma1_cndtr1 ≡ 160)
        × IsClocked (run actions reset_state)
        × ((d : Driver) (s : Screen) → IsDark (show d actions s))
        × IsOrderly false actions)
    × (1280 ≤ 2
        → boot debug landscape font_8x12 linked software (replicate 2 0 ++ []) reset_state ≡ none)
boot-armed_example =
    boot-armed debug font_8x12 linked software reset_state 2 [] font_8x12-length refl refl refl refl

graticule-erase_example :
    (All (λ a. a ≢ pixel (pos 32) (pos 95) red) graticule)
    ⊎ (erase 32 95 ≡ pixel (pos 32) (pos 95) black ∷ [])
graticule-erase_example = graticule-erase 32 95 (omega arith)
