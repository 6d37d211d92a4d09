-- ===== src/Device/Fields.antt =====
-- The fields of the peripherals' registers that the program names, and the peripheral of each. A
-- field that the source writes as a whole register by `bits` has the register's name.

pub data Peripheral : Type 0 where
  rcc gpioa flash gpiob spi2 gpioc gpiod gpioe tim2 tim15 dac dma2 dma1 adc core : Peripheral

pub data Field : Type 0 where
  rcc_cr_hsion rcc_cr_hseon rcc_cr_hserdy rcc_cr_hsebyp rcc_cr_pllon rcc_cr_pllrdy : Field
  rcc_cfgr_sw rcc_cfgr_sws rcc_cfgr_hpre rcc_cfgr_ppre1 rcc_cfgr_ppre2 rcc_cfgr_pllsrc : Field
  rcc_cfgr_pllmul rcc_apb1rstr_spi2rst rcc_ahbenr_dma2en rcc_ahbenr_dmaen : Field
  rcc_ahbenr_adc12en rcc_ahbenr_iopaen rcc_ahbenr_iopben rcc_ahbenr_iopcen : Field
  rcc_ahbenr_iopden rcc_ahbenr_iopeen rcc_apb1enr_dacen rcc_apb1enr_tim2en : Field
  rcc_apb1enr_spi2en rcc_apb2enr_tim15en rcc_cfgr2_adc12pres : Field
  gpioa_moder_moder4 gpioa_moder_moder5 gpioa_pupdr_pupdr4 gpioa_pupdr_pupdr5 : Field
  flash_acr_prftbe flash_acr_latency : Field
  gpiob_moder_moder10 gpiob_moder_moder12 gpiob_moder_moder13 gpiob_moder_moder14 : Field
  gpiob_moder_moder15 gpiob_otyper_ot10 gpiob_otyper_ot12 gpiob_otyper_ot13 : Field
  gpiob_otyper_ot14 gpiob_otyper_ot15 gpiob_ospeedr_ospeedr10 gpiob_ospeedr_ospeedr12 : Field
  gpiob_ospeedr_ospeedr13 gpiob_ospeedr_ospeedr14 gpiob_ospeedr_ospeedr15 : Field
  gpiob_afrh_afrh13 gpiob_afrh_afrh15 gpiob_odr_odr12 gpiob_bsrr_bs10 gpiob_bsrr_bs12 : Field
  gpiob_bsrr_bs13 gpiob_bsrr_bs14 gpiob_bsrr_bs15 gpiob_brr_br10 gpiob_brr_br12 : Field
  gpiob_brr_br13 gpiob_brr_br14 gpiob_brr_br15 : Field
  spi2_cr1_bidimode spi2_cr1_bidioe spi2_cr1_crcen spi2_cr1_crcnext spi2_cr1_crcl : Field
  spi2_cr1_rxonly spi2_cr1_ssm spi2_cr1_ssi spi2_cr1_lsbfirst spi2_cr1_spe spi2_cr1_br : Field
  spi2_cr1_mstr spi2_cr1_cpol spi2_cr1_cpha spi2_cr2_ds spi2_i2scfgr_i2smod spi2_sr_txe : Field
  spi2_sr_bsy spi2_dr_8bit : Field
  gpioc_moder_moder1 gpioc_pupdr_pupdr1 : Field
  gpiod_moder_moder12 gpiod_moder_moder13 gpiod_moder_moder14 gpiod_moder_moder15 : Field
  gpiod_pupdr_pupdr12 gpiod_pupdr_pupdr13 gpiod_pupdr_pupdr14 gpiod_pupdr_pupdr15 : Field
  gpiod_idr : Field
  gpioe_moder gpioe_odr gpioe_bsrr : Field
  tim2_cr1_ckd tim2_cr1_cms tim2_cr1_dir tim2_cr1_arpe tim2_cr1_cen tim2_cr2_mms tim2_arr : Field
  tim2_psc tim2_egr_ug : Field
  tim15_cr1_ckd tim15_cr1_arpe tim15_cr1_cen tim15_cr2_mms tim15_arr tim15_psc tim15_cnt : Field
  tim15_egr_ug : Field
  dac_cr_mamp2 dac_cr_wave2 dac_cr_tsel2 dac_cr_ten2 dac_cr_boff2 dac_cr_mamp1 : Field
  dac_cr_wave1 dac_cr_tsel1 dac_cr_ten1 dac_cr_boff1 dac_cr_en1 dac_cr_en2 dac_cr_dmaen1 : Field
  dac_cr_dmaen2 : Field
  dma2_ccr3_mem2mem dma2_ccr3_pl dma2_ccr3_msize dma2_ccr3_psize dma2_ccr3_minc : Field
  dma2_ccr3_pinc dma2_ccr3_circ dma2_ccr3_dir dma2_ccr3_en dma2_ccr4_mem2mem dma2_ccr4_pl : Field
  dma2_ccr4_msize dma2_ccr4_psize dma2_ccr4_minc dma2_ccr4_pinc dma2_ccr4_circ : Field
  dma2_ccr4_dir dma2_ccr4_en dma2_cndtr3 dma2_cpar3 dma2_cmar3 dma2_cndtr4 dma2_cpar4 : Field
  dma2_cmar4 : Field
  dma1_ccr1_mem2mem dma1_ccr1_pl dma1_ccr1_msize dma1_ccr1_psize dma1_ccr1_minc : Field
  dma1_ccr1_pinc dma1_ccr1_circ dma1_ccr1_dir dma1_ccr1_tcie dma1_ccr1_en dma1_cndtr1 : Field
  dma1_cpar1 dma1_cmar1 dma1_ifcr_ctcif1 : Field
  adc12_ccr_ckmode adc12_ccr_mdma adc12_ccr_dmacfg adc12_ccr_delay adc12_ccr_mult : Field
  adc1_cr_advregen adc1_cr_adcaldif adc1_cr_adcal adc1_cr_aden adc1_cr_adstart : Field
  adc1_cfgr_jauto adc1_cfgr_cont adc1_cfgr_ovrmod adc1_cfgr_exten adc1_cfgr_extsel : Field
  adc1_cfgr_align adc1_cfgr_res adc1_cfgr_dmacfg adc1_cfgr_dmaen adc1_sqr1_sq1 : Field
  adc1_sqr1_l3 adc1_smpr1_smp7 adc1_isr_adrdy adc1_isr_ovr : Field
  nvic_dma1ch1_priority nvic_dma1ch1_enable syst_reload syst_current syst_clock_source : Field
  syst_interrupt syst_counter scb_shpr11 : Field
