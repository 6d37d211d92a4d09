-- ===== src/Spi/Wire.antt =====
-- The pins of the connection as the display's controller reads them, and the software SPI of
-- st7735.rs on them.
pub mod Bits
pub mod Delivery
use stm32f3_oscilloscope.Prelude.{
  ℕ, ◌+◌, ◌*◌, Bool, true, false, List, [], ◌∷◌, ◌++◌, ◌==◌, if◌then◌else◌,
}
use stm32f3_oscilloscope.Device.{
  Field, Action, modify, write, await, delay_ms, lcd, gpiob_bsrr_bs10, gpiob_bsrr_bs12,
  gpiob_bsrr_bs13, gpiob_bsrr_bs15, gpiob_brr_br10, gpiob_brr_br12, gpiob_brr_br13, gpiob_brr_br15,
}
use stm32f3_oscilloscope.Spi.{Token}
use stm32f3_oscilloscope.Spi.Software.{st7735_send_cmd, st7735_send_data}

-- The levels of the pins, the bits read of the present byte, and what the display has received.
pub record Wire : Type 0 where
  pub cs : Bool
  pub dc : Bool
  pub sck : Bool
  pub sda : Bool
  pub count : ℕ
  pub value : ℕ
  pub received : List Token

abbrev pub bit_value : Bool → ℕ
bit_value true = 1
bit_value false = 0

-- At a rising clock, with the chip selected, the display takes a bit, the highest of a byte first,
-- and with the last one it reads A0/DC.
abbrev pub sample : Wire → Wire
sample w =
    let value = 2 * w.value + bit_value w.sda in
    if w.count == 7
    then record w { count = 0; value = 0; received = w.received ++ (w.dc, value) ∷ [] }
    else record w { count = w.count + 1; value = value }

abbrev rise : Bool → Bool → Wire → Wire
rise false false w = sample (record w { sck = true })
rise cs sck w = record w { sck = true }

-- A 1 in the set register or in the reset register drives a pin, and a 0 leaves it.
abbrev drive_pin : Field → Wire → Wire
drive_pin gpiob_bsrr_bs10 w = record w { cs = true }
drive_pin gpiob_brr_br10 w = record w { cs = false }
drive_pin gpiob_bsrr_bs12 w = record w { dc = true }
drive_pin gpiob_brr_br12 w = record w { dc = false }
drive_pin gpiob_bsrr_bs13 w = rise w.cs w.sck w
drive_pin gpiob_brr_br13 w = record w { sck = false }
drive_pin gpiob_bsrr_bs15 w = record w { sda = true }
drive_pin gpiob_brr_br15 w = record w { sda = false }
drive_pin f w = w

abbrev drive_pins : List (Field × ℕ) → Wire → Wire
drive_pins [] w = w
drive_pins ((f, v) ∷ fs) w = drive_pins fs (if v == 1 then drive_pin f w else w)

abbrev pub follow : List Action → Wire → Wire
follow [] w = w
follow (modify fs ∷ later) w = follow later (drive_pins fs w)
follow (write fs ∷ later) w = follow later (drive_pins fs w)
follow (a ∷ later) w = follow later w

-- The call for a byte.
pub call : Token → List Action
unfolding st7735_send_cmd st7735_send_data
call (true, byte) = st7735_send_data byte
call (false, byte) = st7735_send_cmd byte
