-- ===== src/Interrupts/Tests.antt =====
-- The debouncing and the delay at concrete inputs.
use stm32f3_oscilloscope.Prelude.{
  ℕ, ◌+◌, ◌*◌, ◌≤◌, ◌≡◌, Bool, true, false, List, [], ◌∷◌, replicate, arith,
}
use stm32f3_oscilloscope.Interrupts.{Button, start, delay_ms}
use stm32f3_oscilloscope.Interrupts.Debounce.{
  poll_times, flips, flips-le, poll_times-settled, poll_times-marked,
}
use stm32f3_oscilloscope.Interrupts.Delay.{Waited, delay_ms-Waited}

-- A button that was pressed 98 ticks ago.
abbrev pressed : Button
pressed = record { changed = true; state = true; debounce = 2 }

-- The pin bounces, and then the button is let go.
abbrev bounce : List Bool
bounce = false ∷ true ∷ false ∷ false ∷ []

poll_times-settled_example : (poll_times (replicate 3 false) pressed).state ≡ false
poll_times-settled_example = poll_times-settled false 3 pressed (omega arith)

flips-le_example : 101 * flips bounce pressed + 2 ≤ 104
flips-le_example = flips-le bounce pressed (omega arith)

poll_times-marked_example :
    (pressed.changed ≡ true → (poll_times bounce pressed).changed ≡ true)
    × ((poll_times bounce pressed).changed ≡ false → (poll_times bounce pressed).state ≡ true)
poll_times-marked_example = poll_times-marked bounce pressed

-- Two ticks between the first two polls, and one after the second.
abbrev gaps : List (List ℕ)
gaps = (0xf000 ∷ 0xf000 ∷ []) ∷ [] ∷ (0xf000 ∷ []) ∷ []

delay_ms-Waited_example : Waited 2 gaps (delay_ms 2 gaps start)
delay_ms-Waited_example = delay_ms-Waited 2 gaps start (omega arith)
