-- ===== src/Led/Tests.antt =====
-- Runs of the LED functions, and the laws at concrete inputs, with a port that is a number.
use stm32f3_oscilloscope.Prelude.{
  ℕ, zero, suc, ◌+◌, ◌*◌, ◌/◌, ◌<◌, ◌≡◌, refl, true, [], ◌∷◌, ◌==◌, if◌then◌else◌, arith,
}
use stm32f3_oscilloscope.Prelude.Bits.{bit, bit-le-one}
use stm32f3_oscilloscope.Device.{write, gpioe_bsrr}
use stm32f3_oscilloscope.Led.{ld3, ld5, led_mode, led_set, led_off, led_toggle}
use stm32f3_oscilloscope.Led.Port.{Gpio, drive}
use stm32f3_oscilloscope.Led.Laws.{led_set-odr, led_toggle-odr}

-- The number with the given `k` bits.
from_bits : ℕ → (ℕ → ℕ) → ℕ
from_bits zero f = 0
from_bits (suc k) f = (if f 0 == 1 then 1 else 0) + 2 * from_bits k (λ i. f (suc i))

bit-from_bits :
    (k : ℕ) (f : ℕ → ℕ) (i : ℕ) → i < k → bit (from_bits k f) i ≡ (if f i == 1 then 1 else 0)
unfolding from_bits
bit-from_bits zero f i h = absurd (omega arith)
bit-from_bits (suc k) f zero h = ground arith
bit-from_bits (suc k) f (suc i) h =
    let half : from_bits (suc k) f / 2 ≡ from_bits k (λ j. f (suc j)) = ground arith in
    rw half (bit-from_bits k (λ j. f (suc j)) i (omega arith))

abbrev new_bit : ℕ → ℕ → ℕ → ℕ
new_bit v odr i = if bit v i == 1 then 1 else if bit v (i + 16) == 1 then 0 else bit odr i

number_port_bit : (v i odr : ℕ) → i < 16 → bit (from_bits 16 (new_bit v odr)) i ≡ new_bit v odr i
number_port_bit v i odr h = ground (arith, bit-from_bits 16 (new_bit v odr) i h, bit-le-one odr i)

abbrev number_port : Gpio
number_port = record {
  Port = ℕ;
  odr = λ p. p;
  bsrr = λ v p. from_bits 16 (new_bit v p);
  bsrr_bit = number_port_bit;
}

-- The reset value of a mode register, with pin 10 made an output.
led_init_runs : led_mode 10 0xffff_ffff ≡ 0xffdf_ffff
unfolding led_mode
led_init_runs = refl

led_off_runs : led_off ld3 ≡ write ((gpioe_bsrr, 0x0200_0000) ∷ []) ∷ []
unfolding led_off
led_off_runs = refl

led_toggle_runs : drive number_port (led_toggle ld5 0x0700) 0x0700 ≡ 0x0300
unfolding led_toggle from_bits
led_toggle_runs = refl

led_set-odr_example : bit (drive number_port (led_set ld3 true) 0) 9 ≡ 1
led_set-odr_example = led_set-odr number_port ld3 true 0 9 (omega arith)

led_toggle-odr_example : bit (drive number_port (led_toggle ld5 0x0700) 0x0700) 10 ≡ 0
led_toggle-odr_example = led_toggle-odr number_port ld5 0x0700 10 (omega arith)
