-- ===== src/Spi/Wire/Bits.antt =====
-- The loop of the software SPI of st7735.rs, bit by bit.
use stm32f3_oscilloscope.Prelude.{
  ℕ, zero, suc, ◌+◌, ◌*◌, ◌%◌, ◌^◌, ◌<◌, ◌≡◌, refl, ap, ◌∙◌, inl, inr, Bool, true, false, List, [],
  ◌∷◌, ◌++◌, ◌==◌, if◌then◌else◌, Bool-cases, ==→≡, arith,
}
use stm32f3_oscilloscope.Prelude.Bits.{all_below, all_below_sound}
use stm32f3_oscilloscope.Spi.{Token}
use stm32f3_oscilloscope.Spi.Software.{
  top_bit, put_bit, lcd_sck1, lcd_sck0, send_bits, st7735_send_byte,
}
use stm32f3_oscilloscope.Spi.Wire.{Wire, bit_value, follow}

-- A wire with the chip selected and the clock low.
abbrev pub wire : Bool → Bool → ℕ → ℕ → List Token → Wire
wire dc sda count value received = record {
  cs = false;
  dc = dc;
  sck = false;
  sda = sda;
  count = count;
  value = value;
  received = received;
}

-- The wire after one more bit.
abbrev clocked : Bool → Bool → ℕ → ℕ → List Token → Wire
clocked dc b count value received =
    if count == 7
    then wire dc b 0 0 (received ++ (dc, 2 * value + bit_value b) ∷ [])
    else wire dc b (count + 1) (2 * value + bit_value b) received

follow-put_bit :
    (rest : List _) (b dc sda : Bool) (count value : ℕ) (received : List Token)
    → follow (put_bit b ++ (lcd_sck1 ++ (lcd_sck0 ++ rest))) (wire dc sda count value received)
      ≡ follow rest (clocked dc b count value received)
unfolding lcd_sck1 lcd_sck0
follow-put_bit rest true dc sda count value received = elim (Bool-cases (count == 7)) [
  | inl e ↦ rw e
  | inr e ↦ rw e
]
follow-put_bit rest false dc sda count value received = elim (Bool-cases (count == 7)) [
  | inl e ↦ rw e
  | inr e ↦ rw e
]

follow-send_bits :
    (left byte : ℕ) (dc sda : Bool) (count value : ℕ) (received : List Token)
    → follow (send_bits (suc left) byte) (wire dc sda count value received)
      ≡ follow (send_bits left (byte * 2 % 2 ^ 8)) (clocked dc (top_bit byte) count value received)
unfolding send_bits
follow-send_bits left byte dc sda count value received =
    follow-put_bit (send_bits left (byte * 2 % 2 ^ 8)) (top_bit byte) dc sda count value received

abbrev shifted : ℕ → ℕ
shifted byte = byte * 2 % 2 ^ 8

-- The number that the display reads from eight bits of a byte, each the highest after some shifts.
abbrev read_back : ℕ → ℕ → ℕ → ℕ
read_back zero byte value = value
read_back (suc left) byte value =
    read_back left (shifted byte) (2 * value + bit_value (top_bit byte))

read_back_table : all_below 256 (λ byte. read_back 8 byte 0 == byte) ≡ true
read_back_table = refl

abbrev pub last_bit : ℕ → ℕ → Bool
last_bit zero byte = top_bit byte
last_bit (suc left) byte = last_bit left (shifted byte)

follow-no_bits : (byte : ℕ) (w : Wire) → follow (send_bits 0 byte) w ≡ w
unfolding send_bits
follow-no_bits byte w = refl

-- The rest of a byte.
follow-rounds :
    (left byte : ℕ) (dc sda : Bool) (count value : ℕ) (received : List Token)
    → count + left ≡ 7
    → follow (send_bits (suc left) byte) (wire dc sda count value received)
      ≡ wire dc (last_bit left byte) 0 0 (received ++ (dc, read_back (suc left) byte value) ∷ [])
follow-rounds zero byte dc sda count value received e =
    let at_end : (count == 7) ≡ true = ground arith in
    follow-send_bits zero byte dc sda count value received
    ∙ follow-no_bits (shifted byte) (clocked dc (top_bit byte) count value received)
    ∙ rw at_end
follow-rounds (suc left) byte dc sda count value received e =
    let before_end : (count == 7) ≡ false = ground arith in
    follow-send_bits (suc left) byte dc sda count value received
    ∙ rw before_end (
        follow-rounds left (shifted byte) dc (top_bit byte) (count + 1)
          (2 * value + bit_value (top_bit byte)) received (omega arith))

-- Eight rounds from the start of a byte give the byte back.
pub follow-send_byte :
    (byte : ℕ) (dc sda : Bool) (received : List Token)
    → byte < 2 ^ 8
    → follow (st7735_send_byte byte) (wire dc sda 0 0 received)
      ≡ wire dc (last_bit 7 byte) 0 0 (received ++ (dc, byte) ∷ [])
unfolding st7735_send_byte
follow-send_byte byte dc sda received h =
    let back : read_back 8 byte 0 ≡ byte =
      ==→≡ (read_back 8 byte 0) byte
        (all_below_sound 256 (λ byte. read_back 8 byte 0 == byte) byte read_back_table h) in
    follow-rounds 7 byte dc sda 0 0 received refl
    ∙ ap (λ (v : ℕ). wire dc (last_bit 7 byte) 0 0 (received ++ (dc, v) ∷ [])) back
