-- ===== src/Device/Reset.antt =====
-- The reset of SPI2 as the reference manual has it: while the reset controller holds SPI2, its
-- registers have their reset values, whatever was or is written to them.
use stm32f3_oscilloscope.Prelude.{ℕ, Bool, true, false, ◌&&◌, List, [], ◌∷◌, ◌==◌, if◌then◌else◌}
use stm32f3_oscilloscope.Device.Fields.{
  Field, Peripheral, spi2, rcc_apb1rstr_spi2rst, spi2_cr2_ds, spi2_sr_txe,
}
use stm32f3_oscilloscope.Device.Owner.{owner}
use stm32f3_oscilloscope.Device.{Action, Registers, apply}

abbrev is_spi2 : Peripheral → Bool
is_spi2 spi2 = true
is_spi2 _ = false

-- The data size is 8 bits and the transmit buffer is empty; all else is 0.
abbrev reset_value : Field → ℕ
reset_value spi2_cr2_ds = 0b0111
reset_value spi2_sr_txe = 1
reset_value f = 0

abbrev held : Registers → Registers
held r f = if is_spi2 (owner f) && (r rcc_apb1rstr_spi2rst == 1) then reset_value f else r f

-- The registers that a sequence leaves, with the resets of SPI2 in it.
abbrev pub run_reset : List Action → Registers → Registers
run_reset [] r = r
run_reset (a ∷ later) r = run_reset later (held (apply a r))
