-- ===== src/Device/Owner.antt =====
-- The peripheral that a field belongs to.
use stm32f3_oscilloscope.Device.Fields.{
  rcc, gpioa, flash, gpiob, spi2, gpioc, gpiod, gpioe, tim2, tim15, dac, dma2, dma1, adc, core,
  Field, Peripheral, rcc_cr_hsion, rcc_cr_hseon, rcc_cr_hserdy, rcc_cr_hsebyp, rcc_cr_pllon,
  rcc_cr_pllrdy, rcc_cfgr_sw, rcc_cfgr_sws, rcc_cfgr_hpre, rcc_cfgr_ppre1, rcc_cfgr_ppre2,
  rcc_cfgr_pllsrc, rcc_cfgr_pllmul, rcc_apb1rstr_spi2rst, rcc_ahbenr_dma2en, rcc_ahbenr_dmaen,
  rcc_ahbenr_adc12en, rcc_ahbenr_iopaen, rcc_ahbenr_iopben, rcc_ahbenr_iopcen, rcc_ahbenr_iopden,
  rcc_ahbenr_iopeen, rcc_apb1enr_dacen, rcc_apb1enr_tim2en, rcc_apb1enr_spi2en, rcc_apb2enr_tim15en,
  rcc_cfgr2_adc12pres, gpioa_moder_moder4, gpioa_moder_moder5, gpioa_pupdr_pupdr4,
  gpioa_pupdr_pupdr5, flash_acr_prftbe, flash_acr_latency, gpiob_moder_moder10, gpiob_moder_moder12,
  gpiob_moder_moder13, gpiob_moder_moder14, gpiob_moder_moder15, gpiob_otyper_ot10,
  gpiob_otyper_ot12, gpiob_otyper_ot13, gpiob_otyper_ot14, gpiob_otyper_ot15,
  gpiob_ospeedr_ospeedr10, gpiob_ospeedr_ospeedr12, gpiob_ospeedr_ospeedr13,
  gpiob_ospeedr_ospeedr14, gpiob_ospeedr_ospeedr15, gpiob_afrh_afrh13, gpiob_afrh_afrh15,
  gpiob_odr_odr12, gpiob_bsrr_bs10, gpiob_bsrr_bs12, gpiob_bsrr_bs13, gpiob_bsrr_bs14,
  gpiob_bsrr_bs15, gpiob_brr_br10, gpiob_brr_br12, gpiob_brr_br13, gpiob_brr_br14, gpiob_brr_br15,
  spi2_cr1_bidimode, spi2_cr1_bidioe, spi2_cr1_crcen, spi2_cr1_crcnext, spi2_cr1_crcl,
  spi2_cr1_rxonly, spi2_cr1_ssm, spi2_cr1_ssi, spi2_cr1_lsbfirst, spi2_cr1_spe, spi2_cr1_br,
  spi2_cr1_mstr, spi2_cr1_cpol, spi2_cr1_cpha, spi2_cr2_ds, spi2_i2scfgr_i2smod, spi2_sr_txe,
  spi2_sr_bsy, spi2_dr_8bit, gpioc_moder_moder1, gpioc_pupdr_pupdr1, gpiod_moder_moder12,
  gpiod_moder_moder13, gpiod_moder_moder14, gpiod_moder_moder15, gpiod_pupdr_pupdr12,
  gpiod_pupdr_pupdr13, gpiod_pupdr_pupdr14, gpiod_pupdr_pupdr15, gpiod_idr, gpioe_moder, gpioe_odr,
  gpioe_bsrr, tim2_cr1_ckd, tim2_cr1_cms, tim2_cr1_dir, tim2_cr1_arpe, tim2_cr1_cen, tim2_cr2_mms,
  tim2_arr, tim2_psc, tim2_egr_ug, tim15_cr1_ckd, tim15_cr1_arpe, tim15_cr1_cen, tim15_cr2_mms,
  tim15_arr, tim15_psc, tim15_cnt, tim15_egr_ug, dac_cr_mamp2, dac_cr_wave2, dac_cr_tsel2,
  dac_cr_ten2, dac_cr_boff2, dac_cr_mamp1, dac_cr_wave1, dac_cr_tsel1, dac_cr_ten1, dac_cr_boff1,
  dac_cr_en1, dac_cr_en2, dac_cr_dmaen1, dac_cr_dmaen2, dma2_ccr3_mem2mem, dma2_ccr3_pl,
  dma2_ccr3_msize, dma2_ccr3_psize, dma2_ccr3_minc, dma2_ccr3_pinc, dma2_ccr3_circ, dma2_ccr3_dir,
  dma2_ccr3_en, dma2_ccr4_mem2mem, dma2_ccr4_pl, dma2_ccr4_msize, dma2_ccr4_psize, dma2_ccr4_minc,
  dma2_ccr4_pinc, dma2_ccr4_circ, dma2_ccr4_dir, dma2_ccr4_en, dma2_cndtr3, dma2_cpar3, dma2_cmar3,
  dma2_cndtr4, dma2_cpar4, dma2_cmar4, dma1_ccr1_mem2mem, dma1_ccr1_pl, dma1_ccr1_msize,
  dma1_ccr1_psize, dma1_ccr1_minc, dma1_ccr1_pinc, dma1_ccr1_circ, dma1_ccr1_dir, dma1_ccr1_tcie,
  dma1_ccr1_en, dma1_cndtr1, dma1_cpar1, dma1_cmar1, dma1_ifcr_ctcif1, adc12_ccr_ckmode,
  adc12_ccr_mdma, adc12_ccr_dmacfg, adc12_ccr_delay, adc12_ccr_mult, adc1_cr_advregen,
  adc1_cr_adcaldif, adc1_cr_adcal, adc1_cr_aden, adc1_cr_adstart, adc1_cfgr_jauto, adc1_cfgr_cont,
  adc1_cfgr_ovrmod, adc1_cfgr_exten, adc1_cfgr_extsel, adc1_cfgr_align, adc1_cfgr_res,
  adc1_cfgr_dmacfg, adc1_cfgr_dmaen, adc1_sqr1_sq1, adc1_sqr1_l3, adc1_smpr1_smp7, adc1_isr_adrdy,
  adc1_isr_ovr, nvic_dma1ch1_priority, nvic_dma1ch1_enable, syst_reload, syst_current,
  syst_clock_source, syst_interrupt, syst_counter, scb_shpr11,
}

abbrev pub owner : Field → Peripheral
owner rcc_cr_hsion = rcc
owner rcc_cr_hseon = rcc
owner rcc_cr_hserdy = rcc
owner rcc_cr_hsebyp = rcc
owner rcc_cr_pllon = rcc
owner rcc_cr_pllrdy = rcc
owner rcc_cfgr_sw = rcc
owner rcc_cfgr_sws = rcc
owner rcc_cfgr_hpre = rcc
owner rcc_cfgr_ppre1 = rcc
owner rcc_cfgr_ppre2 = rcc
owner rcc_cfgr_pllsrc = rcc
owner rcc_cfgr_pllmul = rcc
owner rcc_apb1rstr_spi2rst = rcc
owner rcc_ahbenr_dma2en = rcc
owner rcc_ahbenr_dmaen = rcc
owner rcc_ahbenr_adc12en = rcc
owner rcc_ahbenr_iopaen = rcc
owner rcc_ahbenr_iopben = rcc
owner rcc_ahbenr_iopcen = rcc
owner rcc_ahbenr_iopden = rcc
owner rcc_ahbenr_iopeen = rcc
owner rcc_apb1enr_dacen = rcc
owner rcc_apb1enr_tim2en = rcc
owner rcc_apb1enr_spi2en = rcc
owner rcc_apb2enr_tim15en = rcc
owner rcc_cfgr2_adc12pres = rcc
owner gpioa_moder_moder4 = gpioa
owner gpioa_moder_moder5 = gpioa
owner gpioa_pupdr_pupdr4 = gpioa
owner gpioa_pupdr_pupdr5 = gpioa
owner flash_acr_prftbe = flash
owner flash_acr_latency = flash
owner gpiob_moder_moder10 = gpiob
owner gpiob_moder_moder12 = gpiob
owner gpiob_moder_moder13 = gpiob
owner gpiob_moder_moder14 = gpiob
owner gpiob_moder_moder15 = gpiob
owner gpiob_otyper_ot10 = gpiob
owner gpiob_otyper_ot12 = gpiob
owner gpiob_otyper_ot13 = gpiob
owner gpiob_otyper_ot14 = gpiob
owner gpiob_otyper_ot15 = gpiob
owner gpiob_ospeedr_ospeedr10 = gpiob
owner gpiob_ospeedr_ospeedr12 = gpiob
owner gpiob_ospeedr_ospeedr13 = gpiob
owner gpiob_ospeedr_ospeedr14 = gpiob
owner gpiob_ospeedr_ospeedr15 = gpiob
owner gpiob_afrh_afrh13 = gpiob
owner gpiob_afrh_afrh15 = gpiob
owner gpiob_odr_odr12 = gpiob
owner gpiob_bsrr_bs10 = gpiob
owner gpiob_bsrr_bs12 = gpiob
owner gpiob_bsrr_bs13 = gpiob
owner gpiob_bsrr_bs14 = gpiob
owner gpiob_bsrr_bs15 = gpiob
owner gpiob_brr_br10 = gpiob
owner gpiob_brr_br12 = gpiob
owner gpiob_brr_br13 = gpiob
owner gpiob_brr_br14 = gpiob
owner gpiob_brr_br15 = gpiob
owner spi2_cr1_bidimode = spi2
owner spi2_cr1_bidioe = spi2
owner spi2_cr1_crcen = spi2
owner spi2_cr1_crcnext = spi2
owner spi2_cr1_crcl = spi2
owner spi2_cr1_rxonly = spi2
owner spi2_cr1_ssm = spi2
owner spi2_cr1_ssi = spi2
owner spi2_cr1_lsbfirst = spi2
owner spi2_cr1_spe = spi2
owner spi2_cr1_br = spi2
owner spi2_cr1_mstr = spi2
owner spi2_cr1_cpol = spi2
owner spi2_cr1_cpha = spi2
owner spi2_cr2_ds = spi2
owner spi2_i2scfgr_i2smod = spi2
owner spi2_sr_txe = spi2
owner spi2_sr_bsy = spi2
owner spi2_dr_8bit = spi2
owner gpioc_moder_moder1 = gpioc
owner gpioc_pupdr_pupdr1 = gpioc
owner gpiod_moder_moder12 = gpiod
owner gpiod_moder_moder13 = gpiod
owner gpiod_moder_moder14 = gpiod
owner gpiod_moder_moder15 = gpiod
owner gpiod_pupdr_pupdr12 = gpiod
owner gpiod_pupdr_pupdr13 = gpiod
owner gpiod_pupdr_pupdr14 = gpiod
owner gpiod_pupdr_pupdr15 = gpiod
owner gpiod_idr = gpiod
owner gpioe_moder = gpioe
owner gpioe_odr = gpioe
owner gpioe_bsrr = gpioe
owner tim2_cr1_ckd = tim2
owner tim2_cr1_cms = tim2
owner tim2_cr1_dir = tim2
owner tim2_cr1_arpe = tim2
owner tim2_cr1_cen = tim2
owner tim2_cr2_mms = tim2
owner tim2_arr = tim2
owner tim2_psc = tim2
owner tim2_egr_ug = tim2
owner tim15_cr1_ckd = tim15
owner tim15_cr1_arpe = tim15
owner tim15_cr1_cen = tim15
owner tim15_cr2_mms = tim15
owner tim15_arr = tim15
owner tim15_psc = tim15
owner tim15_cnt = tim15
owner tim15_egr_ug = tim15
owner dac_cr_mamp2 = dac
owner dac_cr_wave2 = dac
owner dac_cr_tsel2 = dac
owner dac_cr_ten2 = dac
owner dac_cr_boff2 = dac
owner dac_cr_mamp1 = dac
owner dac_cr_wave1 = dac
owner dac_cr_tsel1 = dac
owner dac_cr_ten1 = dac
owner dac_cr_boff1 = dac
owner dac_cr_en1 = dac
owner dac_cr_en2 = dac
owner dac_cr_dmaen1 = dac
owner dac_cr_dmaen2 = dac
owner dma2_ccr3_mem2mem = dma2
owner dma2_ccr3_pl = dma2
owner dma2_ccr3_msize = dma2
owner dma2_ccr3_psize = dma2
owner dma2_ccr3_minc = dma2
owner dma2_ccr3_pinc = dma2
owner dma2_ccr3_circ = dma2
owner dma2_ccr3_dir = dma2
owner dma2_ccr3_en = dma2
owner dma2_ccr4_mem2mem = dma2
owner dma2_ccr4_pl = dma2
owner dma2_ccr4_msize = dma2
owner dma2_ccr4_psize = dma2
owner dma2_ccr4_minc = dma2
owner dma2_ccr4_pinc = dma2
owner dma2_ccr4_circ = dma2
owner dma2_ccr4_dir = dma2
owner dma2_ccr4_en = dma2
owner dma2_cndtr3 = dma2
owner dma2_cpar3 = dma2
owner dma2_cmar3 = dma2
owner dma2_cndtr4 = dma2
owner dma2_cpar4 = dma2
owner dma2_cmar4 = dma2
owner dma1_ccr1_mem2mem = dma1
owner dma1_ccr1_pl = dma1
owner dma1_ccr1_msize = dma1
owner dma1_ccr1_psize = dma1
owner dma1_ccr1_minc = dma1
owner dma1_ccr1_pinc = dma1
owner dma1_ccr1_circ = dma1
owner dma1_ccr1_dir = dma1
owner dma1_ccr1_tcie = dma1
owner dma1_ccr1_en = dma1
owner dma1_cndtr1 = dma1
owner dma1_cpar1 = dma1
owner dma1_cmar1 = dma1
owner dma1_ifcr_ctcif1 = dma1
owner adc12_ccr_ckmode = adc
owner adc12_ccr_mdma = adc
owner adc12_ccr_dmacfg = adc
owner adc12_ccr_delay = adc
owner adc12_ccr_mult = adc
owner adc1_cr_advregen = adc
owner adc1_cr_adcaldif = adc
owner adc1_cr_adcal = adc
owner adc1_cr_aden = adc
owner adc1_cr_adstart = adc
owner adc1_cfgr_jauto = adc
owner adc1_cfgr_cont = adc
owner adc1_cfgr_ovrmod = adc
owner adc1_cfgr_exten = adc
owner adc1_cfgr_extsel = adc
owner adc1_cfgr_align = adc
owner adc1_cfgr_res = adc
owner adc1_cfgr_dmacfg = adc
owner adc1_cfgr_dmaen = adc
owner adc1_sqr1_sq1 = adc
owner adc1_sqr1_l3 = adc
owner adc1_smpr1_smp7 = adc
owner adc1_isr_adrdy = adc
owner adc1_isr_ovr = adc
owner nvic_dma1ch1_priority = core
owner nvic_dma1ch1_enable = core
owner syst_reload = core
owner syst_current = core
owner syst_clock_source = core
owner syst_interrupt = core
owner syst_counter = core
owner scb_shpr11 = core
