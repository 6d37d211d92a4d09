-- ===== src/Siggen/Configure.antt =====
-- `siggen_setup` of siggen.rs, as the sequence of its register accesses.
use stm32f3_oscilloscope.Prelude.{ℕ, List, [], ◌∷◌, ◌++◌, ◌==◌}
use stm32f3_oscilloscope.Prelude.Word.{Build, Result, ok, ◌>>◌, debug_assert}
use stm32f3_oscilloscope.Device.{
  Action, modify, write, Addresses, rcc_ahbenr_dma2en, rcc_ahbenr_iopaen, rcc_apb1enr_dacen,
  rcc_apb1enr_tim2en, gpioa_moder_moder4, gpioa_moder_moder5, gpioa_pupdr_pupdr4,
  gpioa_pupdr_pupdr5, tim2_cr1_ckd, tim2_cr1_cms, tim2_cr1_dir, tim2_cr1_arpe, tim2_cr1_cen,
  tim2_cr2_mms, tim2_arr, tim2_psc, tim2_egr_ug, dac_cr_mamp2, dac_cr_wave2, dac_cr_tsel2,
  dac_cr_ten2, dac_cr_boff2, dac_cr_mamp1, dac_cr_wave1, dac_cr_tsel1, dac_cr_ten1, dac_cr_boff1,
  dac_cr_en1, dac_cr_en2, dac_cr_dmaen1, dac_cr_dmaen2, dma2_ccr3_mem2mem, dma2_ccr3_pl,
  dma2_ccr3_msize, dma2_ccr3_psize, dma2_ccr3_minc, dma2_ccr3_pinc, dma2_ccr3_circ, dma2_ccr3_dir,
  dma2_ccr3_en, dma2_cndtr3, dma2_cpar3, dma2_cmar3, dma2_ccr4_mem2mem, dma2_ccr4_pl,
  dma2_ccr4_msize, dma2_ccr4_psize, dma2_ccr4_minc, dma2_ccr4_pinc, dma2_ccr4_circ, dma2_ccr4_dir,
  dma2_ccr4_en, dma2_cndtr4, dma2_cpar4, dma2_cmar4,
}

-- `enabled()`, and `analog()` for a pin's mode, as the reference manual codes them.
abbrev pub enabled : ℕ
enabled = 1

abbrev pub analog : ℕ
analog = 3

abbrev power_and_pins : List Action
power_and_pins =
    modify ((rcc_ahbenr_dma2en, enabled) ∷ (rcc_ahbenr_iopaen, enabled) ∷ [])
    ∷ modify ((rcc_apb1enr_dacen, enabled) ∷ (rcc_apb1enr_tim2en, enabled) ∷ [])
    ∷ modify ((gpioa_moder_moder4, analog) ∷ (gpioa_moder_moder5, analog) ∷ [])
    ∷ modify ((gpioa_pupdr_pupdr4, 0b00) ∷ (gpioa_pupdr_pupdr5, 0b00) ∷ [])
    ∷ []

abbrev configure_tim2 : List Action
configure_tim2 =
    modify ((tim2_cr1_ckd, 0) ∷ (tim2_cr1_cms, 0) ∷ (tim2_cr1_dir, 0) ∷ (tim2_cr1_arpe, 1) ∷ [])
    ∷ modify ((tim2_cr2_mms, 0b010) ∷ [])
    ∷ write ((tim2_arr, 249) ∷ [])
    ∷ write ((tim2_psc, 0) ∷ [])
    ∷ write ((tim2_egr_ug, 1) ∷ [])
    ∷ []

abbrev configure_dac : Action
configure_dac = modify (
    (dac_cr_mamp2, 0b1011)
    ∷ (dac_cr_wave2, 0b00)
    ∷ (dac_cr_tsel2, 0b100)
    ∷ (dac_cr_ten2, 1)
    ∷ (dac_cr_boff2, 0)
    ∷ (dac_cr_mamp1, 0b1011)
    ∷ (dac_cr_wave1, 0b00)
    ∷ (dac_cr_tsel1, 0b100)
    ∷ (dac_cr_ten1, 1)
    ∷ (dac_cr_boff1, 0)
    ∷ [])

abbrev configure_channel_3 : Addresses → List Action
configure_channel_3 a =
    modify (
      (dma2_ccr3_mem2mem, 0)
      ∷ (dma2_ccr3_pl, 0b01)
      ∷ (dma2_ccr3_msize, 0b01)
      ∷ (dma2_ccr3_psize, 0b01)
      ∷ (dma2_ccr3_minc, 1)
      ∷ (dma2_ccr3_pinc, 0)
      ∷ (dma2_ccr3_circ, 1)
      ∷ (dma2_ccr3_dir, 1)
      ∷ [])
    ∷ write ((dma2_cndtr3, 144) ∷ [])
    ∷ write ((dma2_cpar3, a.dac_dhr12r2) ∷ [])
    ∷ write ((dma2_cmar3, a.sine_12bit) ∷ [])
    ∷ []

abbrev configure_channel_4 : Addresses → List Action
configure_channel_4 a =
    modify (
      (dma2_ccr4_mem2mem, 0)
      ∷ (dma2_ccr4_pl, 0b01)
      ∷ (dma2_ccr4_msize, 0b00)
      ∷ (dma2_ccr4_psize, 0b00)
      ∷ (dma2_ccr4_minc, 1)
      ∷ (dma2_ccr4_pinc, 0)
      ∷ (dma2_ccr4_circ, 1)
      ∷ (dma2_ccr4_dir, 1)
      ∷ [])
    ∷ write ((dma2_cndtr4, 144) ∷ [])
    ∷ write ((dma2_cpar4, a.dac_dhr8r1) ∷ [])
    ∷ write ((dma2_cmar4, a.ramp_8bit) ∷ [])
    ∷ []

abbrev enable : List Action
enable =
    modify ((dac_cr_en1, 1) ∷ (dac_cr_en2, 1) ∷ [])
    ∷ modify ((dma2_ccr3_en, 1) ∷ [])
    ∷ modify ((dma2_ccr4_en, 1) ∷ [])
    ∷ modify ((dac_cr_dmaen1, 1) ∷ (dac_cr_dmaen2, 1) ∷ [])
    ∷ modify ((tim2_cr1_cen, 1) ∷ [])
    ∷ []

unfoldable pub setup_actions : Addresses → List Action
setup_actions a =
    power_and_pins
    ++ (configure_tim2
        ++ (configure_dac ∷ configure_channel_3 a ++ (configure_channel_4 a ++ enable)))

-- Both assertions on the addresses come before the channels are enabled.
unfoldable pub siggen_setup : Build → Addresses → Result (List Action)
siggen_setup b a = do
  debug_assert b (a.dac_dhr12r2 == 0x40007414)
  debug_assert b (a.dac_dhr8r1 == 0x40007410)
  ok (setup_actions a)
