-- ===== src/Spi.antt =====
-- The connection to the display in st7735.rs: the pins, and in the children the hardware SPI of the
-- default build and the software SPI of the build with the feature `software-spi`.
pub mod Link
pub mod Hardware
pub mod Software
pub mod Setup
pub mod Fifo
pub mod Wire
pub mod Pixels
mod Tests
use stm32f3_oscilloscope.Prelude.{ℕ, Bool, List, [], ◌∷◌}
use stm32f3_oscilloscope.Device.{
  Action, modify, write, gpiob_bsrr_bs10, gpiob_bsrr_bs12, gpiob_bsrr_bs14, gpiob_brr_br10,
  gpiob_brr_br12, gpiob_brr_br14, gpiob_otyper_ot10, gpiob_otyper_ot12, gpiob_otyper_ot13,
  gpiob_otyper_ot14, gpiob_otyper_ot15, gpiob_ospeedr_ospeedr10, gpiob_ospeedr_ospeedr12,
  gpiob_ospeedr_ospeedr13, gpiob_ospeedr_ospeedr14, gpiob_ospeedr_ospeedr15,
}

-- A byte for the display's controller, with the level of the pin A0/DC: low for a command.
abbrev pub Token : Type 0
Token = Bool × ℕ

unfoldable pub lcd_cs1 : List Action
lcd_cs1 = write ((gpiob_bsrr_bs10, 1) ∷ []) ∷ []

unfoldable pub lcd_cs0 : List Action
lcd_cs0 = write ((gpiob_brr_br10, 1) ∷ []) ∷ []

unfoldable pub lcd_dc1 : List Action
lcd_dc1 = write ((gpiob_bsrr_bs12, 1) ∷ []) ∷ []

unfoldable pub lcd_dc0 : List Action
lcd_dc0 = write ((gpiob_brr_br12, 1) ∷ []) ∷ []

unfoldable pub lcd_rst1 : List Action
lcd_rst1 = write ((gpiob_bsrr_bs14, 1) ∷ []) ∷ []

unfoldable pub lcd_rst0 : List Action
lcd_rst0 = write ((gpiob_brr_br14, 1) ∷ []) ∷ []

-- The pins' output type and speed, as both setups have them.
abbrev pub push_pull : Action
push_pull = modify (
    (gpiob_otyper_ot10, 0)
    ∷ (gpiob_otyper_ot12, 0)
    ∷ (gpiob_otyper_ot13, 0)
    ∷ (gpiob_otyper_ot14, 0)
    ∷ (gpiob_otyper_ot15, 0)
    ∷ [])

abbrev pub fast : Action
fast = modify (
    (gpiob_ospeedr_ospeedr10, 0b11)
    ∷ (gpiob_ospeedr_ospeedr12, 0b11)
    ∷ (gpiob_ospeedr_ospeedr13, 0b11)
    ∷ (gpiob_ospeedr_ospeedr14, 0b11)
    ∷ (gpiob_ospeedr_ospeedr15, 0b11)
    ∷ [])
