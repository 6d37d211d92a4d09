-- ===== src/Capture/Tests.antt =====
-- The capture at concrete inputs.
use stm32f3_oscilloscope.Prelude.{ℕ}
use stm32f3_oscilloscope.Device.{Addresses, Registers}

abbrev linked : Addresses
linked = record {
  dac_dhr12r2 = 0x4000_7414;
  dac_dhr8r1 = 0x4000_7410;
  adc1_dr = 0x5000_0040;
  sine_12bit = 0x0800_0200;
  ramp_8bit = 0x0800_0400;
  capture_channel_1 = 0x2000_0000;
}

abbrev reset_state : Registers
reset_state f = 0

abbrev edge_rate : ℕ
edge_rate = 1098
