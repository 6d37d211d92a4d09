-- ===== src/Siggen/Setup.antt =====
-- `siggen_setup` of siggen.rs and the rules of the hardware.
use stm32f3_oscilloscope.Prelude.{◌+◌, ◌*◌, ◌^◌, ◌≡◌, refl, [], ◌∷◌, length}
use stm32f3_oscilloscope.Prelude.Word.{Build, ok, debug, release}
use stm32f3_oscilloscope.Device
use stm32f3_oscilloscope.Device.{write, Addresses, Registers, tim2_arr}
use stm32f3_oscilloscope.Siggen.{siggen_set_freq}
use stm32f3_oscilloscope.Siggen.Tables.{sine_12bit, ramp_8bit}
use stm32f3_oscilloscope.Siggen.Configure.{setup_actions, siggen_setup}

-- The generator runs: each channel of DMA2 goes round a whole table, with the width of its items,
-- place by place, to the register of its channel of the DAC, which stays. Both channels of the DAC
-- are enabled on their analog pins, add no wave of their own, are triggered by the updates of TIM2
-- and request their items from DMA2. TIM2 counts up without a prescaler and with a buffered period,
-- the one that `siggen_set_freq` sets for 1,000: 36,000 counts for the 144 items of a table.
pub record IsGenerating (b : Build) (a : Addresses) (r : Registers) : Type 0 where
  pub pins : (r Device.gpioa_moder_moder4 ≡ 3) × (r Device.gpioa_moder_moder5 ≡ 3)
  pub no_pull : (r Device.gpioa_pupdr_pupdr4 ≡ 0) × (r Device.gpioa_pupdr_pupdr5 ≡ 0)
  pub sine_channel :
      (r Device.dma2_ccr3_en ≡ 1)
      × (r Device.dma2_cndtr3 ≡ length sine_12bit)
      × (r Device.dma2_cmar3 ≡ a.sine_12bit)
      × (r Device.dma2_cpar3 ≡ a.dac_dhr12r2)
  pub sine_items : (8 * 2 ^ r Device.dma2_ccr3_msize ≡ 16) × (8 * 2 ^ r Device.dma2_ccr3_psize ≡ 16)
  pub ramp_channel :
      (r Device.dma2_ccr4_en ≡ 1)
      × (r Device.dma2_cndtr4 ≡ length ramp_8bit)
      × (r Device.dma2_cmar4 ≡ a.ramp_8bit)
      × (r Device.dma2_cpar4 ≡ a.dac_dhr8r1)
  pub ramp_items : (8 * 2 ^ r Device.dma2_ccr4_msize ≡ 8) × (8 * 2 ^ r Device.dma2_ccr4_psize ≡ 8)
  pub circular : (r Device.dma2_ccr3_circ ≡ 1) × (r Device.dma2_ccr4_circ ≡ 1)
  pub sine_direction :
      (r Device.dma2_ccr3_dir ≡ 1)
      × (r Device.dma2_ccr3_mem2mem ≡ 0)
      × (r Device.dma2_ccr3_minc ≡ 1)
      × (r Device.dma2_ccr3_pinc ≡ 0)
  pub ramp_direction :
      (r Device.dma2_ccr4_dir ≡ 1)
      × (r Device.dma2_ccr4_mem2mem ≡ 0)
      × (r Device.dma2_ccr4_minc ≡ 1)
      × (r Device.dma2_ccr4_pinc ≡ 0)
  pub converting :
      (r Device.dac_cr_en1 ≡ 1)
      × (r Device.dac_cr_en2 ≡ 1)
      × (r Device.dac_cr_wave1 ≡ 0)
      × (r Device.dac_cr_wave2 ≡ 0)
  pub buffered : (r Device.dac_cr_boff1 ≡ 0) × (r Device.dac_cr_boff2 ≡ 0)
  pub requests : (r Device.dac_cr_dmaen1 ≡ 1) × (r Device.dac_cr_dmaen2 ≡ 1)
  pub triggered :
      (r Device.dac_cr_ten1 ≡ 1)
      × (r Device.dac_cr_ten2 ≡ 1)
      × (r Device.dac_cr_tsel1 ≡ 0b100)
      × (r Device.dac_cr_tsel2 ≡ 0b100)
  pub ticking :
      (r Device.tim2_cr1_cen ≡ 1) × (r Device.tim2_cr1_arpe ≡ 1) × (r Device.tim2_cr2_mms ≡ 0b010)
  pub counting_up : (r Device.tim2_cr1_dir ≡ 0) × (r Device.tim2_cr1_cms ≡ 0)
  pub period :
      (r Device.tim2_psc ≡ 0)
      × (length sine_12bit * ((r tim2_arr + 1) * (r Device.tim2_psc + 1)) ≡ 36_000)
      × (siggen_set_freq b 1000 ≡ ok (write ((tim2_arr, r tim2_arr) ∷ []) ∷ []))

pub siggen_setup-ok :
    (b : Build) (a : Addresses)
    → a.dac_dhr12r2 ≡ 0x40007414
    → a.dac_dhr8r1 ≡ 0x40007410
    → siggen_setup b a ≡ ok (setup_actions a)
unfolding siggen_setup
siggen_setup-ok debug a e3 e4 = rw (e3, e4)
siggen_setup-ok release a e3 e4 = refl
