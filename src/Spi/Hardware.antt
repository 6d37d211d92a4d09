-- ===== src/Spi/Hardware.antt =====
-- The hardware SPI of st7735.rs: the calls that send a byte by SPI2.
use stm32f3_oscilloscope.Prelude.{ℕ, Bool, not, List, [], ◌∷◌, ◌++◌, ◌==◌, if◌then◌else◌}
use stm32f3_oscilloscope.Device.{
  Action, write, await, modify, spi2_sr_txe, spi2_sr_bsy, spi2_dr_8bit, rcc_ahbenr_iopben,
  rcc_apb1enr_spi2en, rcc_apb1rstr_spi2rst, gpiob_moder_moder10, gpiob_moder_moder12,
  gpiob_moder_moder13, gpiob_moder_moder14, gpiob_moder_moder15, gpiob_afrh_afrh13,
  gpiob_afrh_afrh15, spi2_cr1_bidimode, spi2_cr1_bidioe, spi2_cr1_crcen, spi2_cr1_crcnext,
  spi2_cr1_crcl, spi2_cr1_rxonly, spi2_cr1_ssm, spi2_cr1_ssi, spi2_cr1_lsbfirst, spi2_cr1_spe,
  spi2_cr1_br, spi2_cr1_mstr, spi2_cr1_cpol, spi2_cr1_cpha, spi2_cr2_ds, spi2_i2scfgr_i2smod,
}
use stm32f3_oscilloscope.Spi.{lcd_dc0, lcd_dc1, push_pull, fast}

-- The fields of the control register that the code does not name are written with their reset
-- values. `output()` is 1 and `alternate()` is 2.
unfoldable pub st7735_setup : List Action
st7735_setup =
    modify ((rcc_ahbenr_iopben, 1) ∷ [])
    ∷ modify ((rcc_apb1enr_spi2en, 1) ∷ [])
    ∷ modify (
        (gpiob_moder_moder10, 1)
        ∷ (gpiob_moder_moder12, 1)
        ∷ (gpiob_moder_moder13, 2)
        ∷ (gpiob_moder_moder14, 1)
        ∷ (gpiob_moder_moder15, 2)
        ∷ [])
    ∷ push_pull
    ∷ fast
    ∷ modify ((gpiob_afrh_afrh13, 0b0101) ∷ (gpiob_afrh_afrh15, 0b0101) ∷ [])
    ∷ modify ((rcc_apb1rstr_spi2rst, 1) ∷ [])
    ∷ modify ((rcc_apb1rstr_spi2rst, 0) ∷ [])
    ∷ write (
        (spi2_cr1_bidimode, 1)
        ∷ (spi2_cr1_bidioe, 0)
        ∷ (spi2_cr1_ssm, 1)
        ∷ (spi2_cr1_ssi, 1)
        ∷ (spi2_cr1_lsbfirst, 0)
        ∷ (spi2_cr1_br, 0b010)
        ∷ (spi2_cr1_mstr, 1)
        ∷ (spi2_cr1_cpol, 0)
        ∷ (spi2_cr1_cpha, 0)
        ∷ (spi2_cr1_crcen, 0)
        ∷ (spi2_cr1_crcnext, 0)
        ∷ (spi2_cr1_crcl, 0)
        ∷ (spi2_cr1_rxonly, 0)
        ∷ (spi2_cr1_spe, 0)
        ∷ [])
    ∷ modify ((spi2_cr2_ds, 0b0111) ∷ [])
    ∷ modify ((spi2_i2scfgr_i2smod, 0) ∷ [])
    ∷ modify ((spi2_cr1_spe, 1) ∷ [])
    ∷ modify ((spi2_cr1_bidioe, 1) ∷ [])
    ∷ []

-- The write to the data register is one of 8 bits.
unfoldable pub st7735_send_byte : ℕ → List Action
st7735_send_byte data_in = await spi2_sr_txe 1 ∷ write ((spi2_dr_8bit, data_in) ∷ []) ∷ []

unfoldable pub spi2_wait_while_busy : List Action
spi2_wait_while_busy = await spi2_sr_bsy 0 ∷ []

abbrev pub lcd_dc : ℕ → Bool
lcd_dc odr12 = not (odr12 == 0)

-- `odr12` is what `lcd_dc` reads.
unfoldable pub st7735_send_cmd : ℕ → ℕ → List Action
unfolding st7735_send_byte spi2_wait_while_busy lcd_dc0
st7735_send_cmd odr12 cmd =
    (if lcd_dc odr12 then spi2_wait_while_busy ++ lcd_dc0 else []) ++ st7735_send_byte cmd

unfoldable pub st7735_send_data : ℕ → ℕ → List Action
unfolding st7735_send_byte spi2_wait_while_busy lcd_dc1
st7735_send_data odr12 byte =
    (if not (lcd_dc odr12) then spi2_wait_while_busy ++ lcd_dc1 else []) ++ st7735_send_byte byte
