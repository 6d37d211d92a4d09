-- ===== src/Spi/Tests.antt =====
-- Both forms of the connection from a reset, a command with its argument, and the pixels of a
-- rectangle and of a character.
use stm32f3_oscilloscope.Font.{font_8x12}
use stm32f3_oscilloscope.Font.Distinct.{font_8x12-length}
use stm32f3_oscilloscope.Prelude.{◌≡◌, refl, true, false, List, [], ◌∷◌, ◌++◌, replicate, arith}
use stm32f3_oscilloscope.Device
use stm32f3_oscilloscope.Device.{Action, Registers, run}
use stm32f3_oscilloscope.Device.Safety.{clocked, guarded}
use stm32f3_oscilloscope.Lcd.{green, black, send_times}
use stm32f3_oscilloscope.Lcd.Text.{putc_unchecked}
use stm32f3_oscilloscope.Lcd.Glyph.{glyph_pixel}
use stm32f3_oscilloscope.Prelude.Word.{debug, ok}
use stm32f3_oscilloscope.Spi.{Token}
use stm32f3_oscilloscope.Spi.Link.{SendsAll}
use stm32f3_oscilloscope.Sysclk.{actions_for, ready}
use stm32f3_oscilloscope.Device.Reset.{run_reset}
use stm32f3_oscilloscope.Spi.Hardware
use stm32f3_oscilloscope.Spi.Software
use stm32f3_oscilloscope.Spi.Setup.{
  spi_enable, IsSending, DrivesPins, sck_hz, hardware_setup-IsSending, software_setup-DrivesPins,
}
use stm32f3_oscilloscope.Spi.Fifo.{Fifo, sent}
use stm32f3_oscilloscope.Spi.Fifo.Delivery.{fifo_link, fifo_link-sent}
use stm32f3_oscilloscope.Spi.Wire.{Wire, follow}
use stm32f3_oscilloscope.Spi.Wire.Delivery.{IsIdle, calls, wire_link-sent}
use stm32f3_oscilloscope.Spi.Pixels.{
  data_bytes, colors, values, Delivers, send_times-colors, putc_unchecked-colors,
}

abbrev madctl : List Token
madctl = (false, 0x36) ∷ (true, 0xc0) ∷ []

-- A data byte is still in the buffer.
abbrev busy : Fifo
busy = record { dc = true; queue = 0x55 ∷ []; received = [] }

fifo_link-sent_example :
    ((g : Fifo) → SendsAll fifo_link madctl busy g → sent g ≡ sent busy ++ madctl)
    × ((g : Fifo) × SendsAll fifo_link madctl busy g)
fifo_link-sent_example = fifo_link-sent madctl busy (omega arith)

abbrev selected : Wire
selected = record {
  cs = false;
  dc = true;
  sck = false;
  sda = true;
  count = 0;
  value = 0;
  received = [];
}

wire_link-sent_example :
    IsIdle (follow (calls madctl) selected) × ((follow (calls madctl) selected).received ≡ madctl)
wire_link-sent_example =
    wire_link-sent madctl selected (omega arith)
      (record { selected = refl; low = refl; no_bits = refl; no_value = refl })

send_times-colors_example :
    let bytes = data_bytes (send_times 3 0xf800) in
    (colors bytes ≡ replicate 3 0xf800) × Delivers fifo_link busy bytes
send_times-colors_example = send_times-colors fifo_link busy 3 0xf800 tt (omega arith)

abbrev reset_state : Registers
reset_state f = 0

-- The registers with the clocks as `set_sys_clock` leaves them.
abbrev clocks_on : Registers
clocks_on = run (actions_for ready) reset_state

hardware_setup-IsSending_example :
    let r' = run_reset Hardware.st7735_setup clocks_on in
    (clocked Hardware.st7735_setup clocks_on ≡ true)
    × (guarded spi_enable Hardware.st7735_setup clocks_on ≡ true)
    × IsSending r'
    × DrivesPins r'
    × (sck_hz r' ≡ 4_500_000)
hardware_setup-IsSending_example = hardware_setup-IsSending clocks_on refl refl

software_setup-DrivesPins_example :
    let r' = run Software.st7735_setup reset_state in
    (clocked Software.st7735_setup reset_state ≡ true)
    × DrivesPins r'
    × (r' Device.gpiob_moder_moder13 ≡ 1)
    × (r' Device.gpiob_moder_moder15 ≡ 1)
software_setup-DrivesPins_example = software_setup-DrivesPins reset_state

putc_unchecked-colors_example :
    (actions : List Action) × (putc_unchecked debug font_8x12 green black 152 116 65 ≡ ok actions)
    × (colors (data_bytes actions) ≡ values (glyph_pixel font_8x12 green black 65) 96 0)
    × Delivers fifo_link busy (data_bytes actions)
putc_unchecked-colors_example =
    putc_unchecked-colors fifo_link busy debug font_8x12 green black 152 116 65 tt font_8x12-length
      (omega arith) (omega arith) (omega arith)
