-- ===== src/Capture/Configure.antt =====
-- `setup` of capture.rs, as the sequence of its register accesses.
use stm32f3_oscilloscope.Prelude.{ℕ, List, [], ◌∷◌, ◌++◌, ◌==◌}
use stm32f3_oscilloscope.Prelude.Word.{Build, Result, ok, ◌>>◌, debug_assert}
use stm32f3_oscilloscope.Device.{
  Action, modify, write, await, delay_ms, Addresses, rcc_ahbenr_adc12en, rcc_ahbenr_dmaen,
  rcc_ahbenr_iopcen, rcc_apb2enr_tim15en, rcc_cfgr2_adc12pres, gpioc_moder_moder1,
  gpioc_pupdr_pupdr1, adc12_ccr_ckmode, adc12_ccr_mdma, adc12_ccr_dmacfg, adc12_ccr_delay,
  adc12_ccr_mult, adc1_cr_advregen, adc1_cr_adcaldif, adc1_cr_adcal, adc1_cr_aden, adc1_cfgr_jauto,
  adc1_cfgr_cont, adc1_cfgr_ovrmod, adc1_cfgr_exten, adc1_cfgr_extsel, adc1_cfgr_align,
  adc1_cfgr_res, adc1_cfgr_dmacfg, adc1_cfgr_dmaen, adc1_sqr1_sq1, adc1_sqr1_l3, adc1_smpr1_smp7,
  adc1_isr_adrdy, tim15_cr1_ckd, tim15_cr1_arpe, tim15_cr1_cen, tim15_cr2_mms, tim15_arr, tim15_psc,
  tim15_egr_ug, dma1_ccr1_mem2mem, dma1_ccr1_pl, dma1_ccr1_msize, dma1_ccr1_psize, dma1_ccr1_minc,
  dma1_ccr1_pinc, dma1_ccr1_circ, dma1_ccr1_dir, dma1_ccr1_tcie, dma1_cndtr1, dma1_cpar1,
  dma1_cmar1, nvic_dma1ch1_priority, nvic_dma1ch1_enable,
}

abbrev enabled : ℕ
enabled = 1

abbrev analog : ℕ
analog = 3

-- The first critical section: clocks, the input pin, and the converter's voltage regulator.
abbrev power_up : List Action
power_up =
    modify (
      (rcc_ahbenr_adc12en, enabled)
      ∷ (rcc_ahbenr_dmaen, enabled)
      ∷ (rcc_ahbenr_iopcen, enabled)
      ∷ [])
    ∷ modify ((rcc_apb2enr_tim15en, enabled) ∷ [])
    ∷ modify ((gpioc_moder_moder1, analog) ∷ [])
    ∷ modify ((gpioc_pupdr_pupdr1, 0b00) ∷ [])
    ∷ modify ((rcc_cfgr2_adc12pres, 0b00000) ∷ [])
    ∷ modify ((adc12_ccr_ckmode, 0b10) ∷ [])
    ∷ modify ((adc1_cr_advregen, 0b00) ∷ [])
    ∷ modify ((adc1_cr_advregen, 0b01) ∷ [])
    ∷ []

abbrev calibrate : List Action
calibrate =
    modify ((adc1_cr_adcaldif, 0) ∷ [])
    ∷ modify ((adc1_cr_adcal, 1) ∷ [])
    ∷ await adc1_cr_adcal 0
    ∷ []

abbrev configure_adc : List Action
configure_adc =
    modify (
      (adc12_ccr_ckmode, 0b10)
      ∷ (adc12_ccr_mdma, 0b00)
      ∷ (adc12_ccr_dmacfg, 0)
      ∷ (adc12_ccr_delay, 0)
      ∷ (adc12_ccr_mult, 0)
      ∷ [])
    ∷ modify (
        (adc1_cfgr_jauto, 0)
        ∷ (adc1_cfgr_cont, 0)
        ∷ (adc1_cfgr_ovrmod, 1)
        ∷ (adc1_cfgr_exten, 0b01)
        ∷ (adc1_cfgr_extsel, 0b1110)
        ∷ (adc1_cfgr_align, 0)
        ∷ (adc1_cfgr_res, 0b00)
        ∷ (adc1_cfgr_dmacfg, 0)
        ∷ (adc1_cfgr_dmaen, 1)
        ∷ [])
    ∷ modify ((adc1_sqr1_sq1, 7) ∷ (adc1_sqr1_l3, 0b0000) ∷ [])
    ∷ modify ((adc1_smpr1_smp7, 0b011) ∷ [])
    ∷ []

abbrev configure_tim15 : List Action
configure_tim15 =
    modify ((tim15_cr1_ckd, 0b00) ∷ (tim15_cr1_arpe, 1) ∷ [])
    ∷ modify ((tim15_cr2_mms, 0b010) ∷ [])
    ∷ write ((tim15_arr, 999) ∷ [])
    ∷ write ((tim15_psc, 71) ∷ [])
    ∷ write ((tim15_egr_ug, 1) ∷ [])
    ∷ []

abbrev configure_dma : Addresses → List Action
configure_dma a =
    modify (
      (dma1_ccr1_mem2mem, 0)
      ∷ (dma1_ccr1_pl, 0b10)
      ∷ (dma1_ccr1_msize, 0b01)
      ∷ (dma1_ccr1_psize, 0b01)
      ∷ (dma1_ccr1_minc, 1)
      ∷ (dma1_ccr1_pinc, 0)
      ∷ (dma1_ccr1_circ, 0)
      ∷ (dma1_ccr1_dir, 0)
      ∷ (dma1_ccr1_tcie, 1)
      ∷ [])
    ∷ write ((dma1_cndtr1, 160) ∷ [])
    ∷ write ((dma1_cpar1, a.adc1_dr) ∷ [])
    ∷ write ((dma1_cmar1, a.capture_channel_1) ∷ [])
    ∷ write ((nvic_dma1ch1_priority, 0) ∷ [])
    ∷ write ((nvic_dma1ch1_enable, 1) ∷ [])
    ∷ []

abbrev enable : List Action
enable =
    modify ((adc1_cr_aden, 1) ∷ []) ∷ await adc1_isr_adrdy 1 ∷ modify ((tim15_cr1_cen, 1) ∷ []) ∷ []

unfoldable pub setup_actions : Addresses → List Action
setup_actions a =
    power_up
    ++ (delay_ms 2 ∷ calibrate
        ++ (configure_adc ++ (configure_tim15 ++ (configure_dma a ++ enable))))

-- The assertion comes before the first use of the address.
unfoldable pub setup : Build → Addresses → Result (List Action)
setup b a = do debug_assert b (a.adc1_dr == 0x50000040); ok (setup_actions a)
