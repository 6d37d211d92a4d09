-- ===== src/Led.antt =====
-- led.rs: the LEDs of the board, on port E.
pub mod Port
pub mod Laws
mod Tests
use stm32f3_oscilloscope.Prelude.{
  ℕ, ◌+◌, ◌*◌, ◌^◌, Bool, ◌&&◌, List, [], ◌∷◌, leb, ◌==◌, if◌then◌else◌, bit_and, bit_or,
}
use stm32f3_oscilloscope.Prelude.Bits.{complement}
use stm32f3_oscilloscope.Device.{Action, modify, write, gpioe_moder, gpioe_bsrr}

pub data Led : Type 0 where
  ld4 ld3 ld5 ld7 ld9 ld10 ld8 ld6 : Led

-- `led as u8`
abbrev pub pin_of : Led → ℕ
pin_of ld4 = 8
pin_of ld3 = 9
pin_of ld5 = 10
pin_of ld7 = 11
pin_of ld9 = 12
pin_of ld10 = 13
pin_of ld8 = 14
pin_of ld6 = 15

abbrev is_led_pin : ℕ → Bool
is_led_pin pin = leb 8 pin && leb pin 15

-- The new value of the mode register, from its old one.
unfoldable pub led_mode : ℕ → ℕ → ℕ
led_mode pin moder = bit_or (bit_and moder (complement 32 (3 * 2 ^ (pin * 2)))) (2 ^ (pin * 2))

-- `moder` is what `modify` reads.
unfoldable pub led_init : Led → ℕ → List Action
led_init led moder =
    let pin = pin_of led in
    if is_led_pin pin then modify ((gpioe_moder, led_mode pin moder) ∷ []) ∷ [] else []

abbrev set_pin : ℕ → List Action
set_pin pin = write ((gpioe_bsrr, 2 ^ pin) ∷ []) ∷ []

abbrev reset_pin : ℕ → List Action
reset_pin pin = write ((gpioe_bsrr, 2 ^ (pin + 16)) ∷ []) ∷ []

pub led_set : Led → Bool → List Action
led_set led state =
    let pin = pin_of led in
    if is_led_pin pin then (if state then set_pin pin else reset_pin pin) else []

unfoldable pub led_on : Led → List Action
led_on led = let pin = pin_of led in if is_led_pin pin then set_pin pin else []

unfoldable pub led_off : Led → List Action
led_off led = let pin = pin_of led in if is_led_pin pin then reset_pin pin else []

-- `odr` is what the output data register reads.
unfoldable pub led_toggle : Led → ℕ → List Action
led_toggle led odr =
    let pin = pin_of led in
    let new_state = bit_and odr (2 ^ pin) == 0 in
    if is_led_pin pin then (if new_state then set_pin pin else reset_pin pin) else []
