-- ===== src/Spi/Software.antt =====
-- The software SPI of st7735.rs: the calls that send a byte bit by bit.
use stm32f3_oscilloscope.Prelude.{
  ℕ, zero, suc, ◌*◌, ◌%◌, ◌^◌, Bool, not, List, [], ◌∷◌, ◌++◌, ◌==◌, if◌then◌else◌, bit_and,
}
use stm32f3_oscilloscope.Device.{
  Action, write, modify, gpiob_bsrr_bs13, gpiob_bsrr_bs15, gpiob_brr_br13, gpiob_brr_br15,
  rcc_ahbenr_iopben, gpiob_moder_moder10, gpiob_moder_moder12, gpiob_moder_moder13,
  gpiob_moder_moder14, gpiob_moder_moder15,
}
use stm32f3_oscilloscope.Spi.{lcd_dc0, lcd_dc1, push_pull, fast}

unfoldable pub lcd_sck1 : List Action
lcd_sck1 = write ((gpiob_bsrr_bs13, 1) ∷ []) ∷ []

unfoldable pub lcd_sck0 : List Action
lcd_sck0 = write ((gpiob_brr_br13, 1) ∷ []) ∷ []

unfoldable pub st7735_setup : List Action
unfolding lcd_sck0
st7735_setup =
    modify ((rcc_ahbenr_iopben, 1) ∷ []) ∷ []
    ++ (lcd_sck0
        ++ (modify (
              (gpiob_moder_moder10, 1)
              ∷ (gpiob_moder_moder12, 1)
              ∷ (gpiob_moder_moder13, 1)
              ∷ (gpiob_moder_moder14, 1)
              ∷ (gpiob_moder_moder15, 1)
              ∷ [])
            ∷ push_pull
            ∷ fast
            ∷ []))

-- `(data & 0x80) != 0`
abbrev pub top_bit : ℕ → Bool
top_bit byte = not (bit_and byte 0x80 == 0)

abbrev pub put_bit : Bool → List Action
put_bit b =
    if b then write ((gpiob_bsrr_bs15, 1) ∷ []) ∷ [] else write ((gpiob_brr_br15, 1) ∷ []) ∷ []

-- The loop, with `left` bits to go.
unfoldable pub send_bits : ℕ → ℕ → List Action
unfolding lcd_sck1 lcd_sck0
send_bits zero byte = []
send_bits (suc left) byte =
    put_bit (top_bit byte) ++ (lcd_sck1 ++ (lcd_sck0 ++ send_bits left (byte * 2 % 2 ^ 8)))

unfoldable pub st7735_send_byte : ℕ → List Action
unfolding send_bits
st7735_send_byte data_in = send_bits 8 data_in

unfoldable pub st7735_send_cmd : ℕ → List Action
unfolding st7735_send_byte lcd_dc0
st7735_send_cmd cmd = lcd_dc0 ++ st7735_send_byte cmd

unfoldable pub st7735_send_data : ℕ → List Action
unfolding st7735_send_byte lcd_dc1
st7735_send_data byte = lcd_dc1 ++ st7735_send_byte byte
