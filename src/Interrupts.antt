-- ===== src/Interrupts.antt =====
-- The handlers of main.rs and the state that they share with the main loop: the pushbuttons with
-- their debouncing, and the delay counter.
pub mod Debounce
pub mod Delay
mod Tests
use stm32f3_oscilloscope.Prelude.{
  ℕ, ◌-◌, ◌^◌, Bool, true, false, ◌≡◌, Option, none, some, List, [], ◌∷◌, ◌++◌, get_elem?, set, ltb,
  ◌==◌, if◌then◌else◌, bit_and,
}
use stm32f3_oscilloscope.Prelude.Word.{Result, ok, panic, ◌>>=◌, index}
use stm32f3_oscilloscope.Device.{Action, write, dma1_ifcr_ctcif1}
use stm32f3_oscilloscope.Led.{ld3, led_off}

-- One button's entries of `BUTTON_CHANGED`, `BUTTON_STATE` and `BUTTON_DEBOUNCE`.
pub record Button : Type 0 where
  pub changed : Bool
  pub state : Bool
  pub debounce : ℕ

-- The state that the handlers and the main loop share. The four buttons stand in the arrays' order.
pub record Shared : Type 0 where
  pub timing_delay : ℕ
  pub buttons : List Button

-- `BUTTON_PIN`
abbrev pub button_pin : List ℕ
button_pin = 12 ∷ 13 ∷ 14 ∷ 15 ∷ []

abbrev pub start : Shared
start =
    let b : Button = record { changed = false; state = false; debounce = 0 } in
    record { timing_delay = 0; buttons = b ∷ b ∷ b ∷ b ∷ [] }

unfoldable pub button_get_changed : ℕ → Shared → Result Bool
button_get_changed i s = do b ← index s.buttons i; ok b.changed

unfoldable pub button_reset_changed : ℕ → Shared → Result Shared
button_reset_changed i s = do
  b ← index s.buttons i
  ok (record s { buttons = set s.buttons i (record b { changed = false }) })

unfoldable pub button_get_state : ℕ → Shared → Result Bool
button_get_state i s = do b ← index s.buttons i; ok b.state

-- The body of the loop over the buttons, from the level of the button's pin: a low pin is a button
-- that is pressed.
unfoldable pub poll_button : Bool → Button → Button
poll_button low b =
    if ltb 0 b.debounce
    then record b { debounce = b.debounce - 1 }
    else if low
    then (if b.state then b else record { changed = true; state = true; debounce = 100 })
    else (if b.state then record { changed = true; state = false; debounce = 100 } else b)

-- `(idr & (1 << pin)) == 0`
abbrev pub is_low : ℕ → ℕ → Bool
is_low idr pin = bit_and idr (2 ^ pin) == 0

unfoldable pub poll_buttons : ℕ → List ℕ → List Button → List Button
poll_buttons idr [] buttons = buttons
poll_buttons idr (pin ∷ pins) [] = []
poll_buttons idr (pin ∷ pins) (b ∷ buttons) =
    poll_button (is_low idr pin) b ∷ poll_buttons idr pins buttons

-- `idr` is what the input register of port D reads at this tick.
unfoldable pub systick_handler : ℕ → Shared → Shared
unfolding poll_buttons
systick_handler idr s = record {
  timing_delay = if s.timing_delay == 0 then s.timing_delay else s.timing_delay - 1;
  buttons = poll_buttons idr button_pin s.buttons;
}

-- The ticks that interrupt the main program at one point, with their readings in order.
unfoldable pub ticks : List ℕ → Shared → Shared
unfolding systick_handler
ticks [] s = s
ticks (idr ∷ later) s = ticks later (systick_handler idr s)

-- The loop of `delay_ms`: each round reads the counter, and the ticks of a list come between one
-- read and the next. The result holds what is left of the interrupts; `none` is still waiting.
unfoldable pub wait_delay : List (List ℕ) → Shared → Option (List (List ℕ) × Shared)
unfolding ticks
wait_delay [] s = if s.timing_delay == 0 then some ([], s) else none
wait_delay (gap ∷ gaps) s =
    let again = wait_delay gaps (ticks gap s) in
    if s.timing_delay == 0 then some (gap ∷ gaps, s) else again

unfoldable pub delay_ms : ℕ → List (List ℕ) → Shared → Option (List (List ℕ) × Shared)
unfolding wait_delay
delay_ms ms gaps s = wait_delay gaps (record s { timing_delay = ms })

unfoldable pub dma1ch1_interrupt_handler : List Action
unfolding led_off
dma1ch1_interrupt_handler = led_off ld3 ++ (write ((dma1_ifcr_ctcif1, 1) ∷ []) ∷ [])
