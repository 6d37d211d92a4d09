-- ===== src/Siggen/Tests.antt =====
-- The signal generator at concrete inputs.
use stm32f3_oscilloscope.Prelude.{ℕ, ◌+◌, ◌*◌, ◌^◌, ◌≤◌, ◌<◌, ◌-◌, ◌≡◌, [], ◌∷◌, arith}
use stm32f3_oscilloscope.Prelude.Word.{debug, release, ok, panic}
use stm32f3_oscilloscope.Device.{write, Addresses, Registers, tim2_arr}
use stm32f3_oscilloscope.Siggen.{siggen_set_freq}
use stm32f3_oscilloscope.Siggen.Frequency.{siggen_set_freq-nearest, siggen_set_freq-extremes}

abbrev linked : Addresses
linked = record {
  dac_dhr12r2 = 0x4000_7414;
  dac_dhr8r1 = 0x4000_7410;
  adc1_dr = 0x5000_0040;
  sine_12bit = 0x0800_0200;
  ramp_8bit = 0x0800_0400;
  capture_channel_1 = 0x2000_0000;
}

abbrev reset_state : Registers
reset_state f = 0

siggen_set_freq-nearest_example :
    (arr : ℕ) × (siggen_set_freq debug 3333 ≡ ok (write ((tim2_arr, arr) ∷ []) ∷ []))
    × ((arr + 1) * 144 * 3333 ≤ 36_000_000)
    × (36_000_000 < (arr + 2) * 144 * 3333)
    × (arr < 2 ^ 32)
siggen_set_freq-nearest_example = siggen_set_freq-nearest debug 3333 (omega arith) (omega arith)

siggen_set_freq-extremes_example :
    (siggen_set_freq release 0 ≡ panic)
    × ((freq : ℕ)
        → 125_000 < freq
        → freq ≤ 250_000
        → siggen_set_freq release freq ≡ ok (write ((tim2_arr, 1) ∷ []) ∷ []))
    × ((freq : ℕ) → 250_000 < freq → siggen_set_freq debug freq ≡ panic)
    × ((freq : ℕ)
        → 250_000 < freq
        → siggen_set_freq release freq ≡ ok (write ((tim2_arr, 2 ^ 32 - 1) ∷ []) ∷ []))
siggen_set_freq-extremes_example = siggen_set_freq-extremes release
