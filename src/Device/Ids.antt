-- ===== src/Device/Ids.antt =====
-- A number for each field, by which fields are compared.
use stm32f3_oscilloscope.Prelude.{ℕ}
use stm32f3_oscilloscope.Device.Fields.{
  Field, rcc_cr_hsion, rcc_cr_hseon, rcc_cr_hserdy, rcc_cr_hsebyp, rcc_cr_pllon, rcc_cr_pllrdy,
  rcc_cfgr_sw, rcc_cfgr_sws, rcc_cfgr_hpre, rcc_cfgr_ppre1, rcc_cfgr_ppre2, rcc_cfgr_pllsrc,
  rcc_cfgr_pllmul, rcc_apb1rstr_spi2rst, rcc_ahbenr_dma2en, rcc_ahbenr_dmaen, rcc_ahbenr_adc12en,
  rcc_ahbenr_iopaen, rcc_ahbenr_iopben, rcc_ahbenr_iopcen, rcc_ahbenr_iopden, rcc_ahbenr_iopeen,
  rcc_apb1enr_dacen, rcc_apb1enr_tim2en, rcc_apb1enr_spi2en, rcc_apb2enr_tim15en,
  rcc_cfgr2_adc12pres, gpioa_moder_moder4, gpioa_moder_moder5, gpioa_pupdr_pupdr4,
  gpioa_pupdr_pupdr5, flash_acr_prftbe, flash_acr_latency, gpiob_moder_moder10, gpiob_moder_moder12,
  gpiob_moder_moder13, gpiob_moder_moder14, gpiob_moder_moder15, gpiob_otyper_ot10,
  gpiob_otyper_ot12, gpiob_otyper_ot13, gpiob_otyper_ot14, gpiob_otyper_ot15,
  gpiob_ospeedr_ospeedr10, gpiob_ospeedr_ospeedr12, gpiob_ospeedr_ospeedr13,
  gpiob_ospeedr_ospeedr14, gpiob_ospeedr_ospeedr15, gpiob_afrh_afrh13, gpiob_afrh_afrh15,
  gpiob_odr_odr12, gpiob_bsrr_bs10, gpiob_bsrr_bs12, gpiob_bsrr_bs13, gpiob_bsrr_bs14,
  gpiob_bsrr_bs15, gpiob_brr_br10, gpiob_brr_br12, gpiob_brr_br13, gpiob_brr_br14, gpiob_brr_br15,
  spi2_cr1_bidimode, spi2_cr1_bidioe, spi2_cr1_crcen, spi2_cr1_crcnext, spi2_cr1_crcl,
  spi2_cr1_rxonly, spi2_cr1_ssm, spi2_cr1_ssi, spi2_cr1_lsbfirst, spi2_cr1_spe, spi2_cr1_br,
  spi2_cr1_mstr, spi2_cr1_cpol, spi2_cr1_cpha, spi2_cr2_ds, spi2_i2scfgr_i2smod, spi2_sr_txe,
  spi2_sr_bsy, spi2_dr_8bit, gpioc_moder_moder1, gpioc_pupdr_pupdr1, gpiod_moder_moder12,
  gpiod_moder_moder13, gpiod_moder_moder14, gpiod_moder_moder15, gpiod_pupdr_pupdr12,
  gpiod_pupdr_pupdr13, gpiod_pupdr_pupdr14, gpiod_pupdr_pupdr15, gpiod_idr, gpioe_moder, gpioe_odr,
  gpioe_bsrr, tim2_cr1_ckd, tim2_cr1_cms, tim2_cr1_dir, tim2_cr1_arpe, tim2_cr1_cen, tim2_cr2_mms,
  tim2_arr, tim2_psc, tim2_egr_ug, tim15_cr1_ckd, tim15_cr1_arpe, tim15_cr1_cen, tim15_cr2_mms,
  tim15_arr, tim15_psc, tim15_cnt, tim15_egr_ug, dac_cr_mamp2, dac_cr_wave2, dac_cr_tsel2,
  dac_cr_ten2, dac_cr_boff2, dac_cr_mamp1, dac_cr_wave1, dac_cr_tsel1, dac_cr_ten1, dac_cr_boff1,
  dac_cr_en1, dac_cr_en2, dac_cr_dmaen1, dac_cr_dmaen2, dma2_ccr3_mem2mem, dma2_ccr3_pl,
  dma2_ccr3_msize, dma2_ccr3_psize, dma2_ccr3_minc, dma2_ccr3_pinc, dma2_ccr3_circ, dma2_ccr3_dir,
  dma2_ccr3_en, dma2_ccr4_mem2mem, dma2_ccr4_pl, dma2_ccr4_msize, dma2_ccr4_psize, dma2_ccr4_minc,
  dma2_ccr4_pinc, dma2_ccr4_circ, dma2_ccr4_dir, dma2_ccr4_en, dma2_cndtr3, dma2_cpar3, dma2_cmar3,
  dma2_cndtr4, dma2_cpar4, dma2_cmar4, dma1_ccr1_mem2mem, dma1_ccr1_pl, dma1_ccr1_msize,
  dma1_ccr1_psize, dma1_ccr1_minc, dma1_ccr1_pinc, dma1_ccr1_circ, dma1_ccr1_dir, dma1_ccr1_tcie,
  dma1_ccr1_en, dma1_cndtr1, dma1_cpar1, dma1_cmar1, dma1_ifcr_ctcif1, adc12_ccr_ckmode,
  adc12_ccr_mdma, adc12_ccr_dmacfg, adc12_ccr_delay, adc12_ccr_mult, adc1_cr_advregen,
  adc1_cr_adcaldif, adc1_cr_adcal, adc1_cr_aden, adc1_cr_adstart, adc1_cfgr_jauto, adc1_cfgr_cont,
  adc1_cfgr_ovrmod, adc1_cfgr_exten, adc1_cfgr_extsel, adc1_cfgr_align, adc1_cfgr_res,
  adc1_cfgr_dmacfg, adc1_cfgr_dmaen, adc1_sqr1_sq1, adc1_sqr1_l3, adc1_smpr1_smp7, adc1_isr_adrdy,
  adc1_isr_ovr, nvic_dma1ch1_priority, nvic_dma1ch1_enable, syst_reload, syst_current,
  syst_clock_source, syst_interrupt, syst_counter, scb_shpr11,
}

abbrev pub field_id : Field → ℕ
field_id rcc_cr_hsion = 0
field_id rcc_cr_hseon = 1
field_id rcc_cr_hserdy = 2
field_id rcc_cr_hsebyp = 3
field_id rcc_cr_pllon = 4
field_id rcc_cr_pllrdy = 5
field_id rcc_cfgr_sw = 6
field_id rcc_cfgr_sws = 7
field_id rcc_cfgr_hpre = 8
field_id rcc_cfgr_ppre1 = 9
field_id rcc_cfgr_ppre2 = 10
field_id rcc_cfgr_pllsrc = 11
field_id rcc_cfgr_pllmul = 12
field_id rcc_apb1rstr_spi2rst = 13
field_id rcc_ahbenr_dma2en = 14
field_id rcc_ahbenr_dmaen = 15
field_id rcc_ahbenr_adc12en = 16
field_id rcc_ahbenr_iopaen = 17
field_id rcc_ahbenr_iopben = 18
field_id rcc_ahbenr_iopcen = 19
field_id rcc_ahbenr_iopden = 20
field_id rcc_ahbenr_iopeen = 21
field_id rcc_apb1enr_dacen = 22
field_id rcc_apb1enr_tim2en = 23
field_id rcc_apb1enr_spi2en = 24
field_id rcc_apb2enr_tim15en = 25
field_id rcc_cfgr2_adc12pres = 26
field_id gpioa_moder_moder4 = 27
field_id gpioa_moder_moder5 = 28
field_id gpioa_pupdr_pupdr4 = 29
field_id gpioa_pupdr_pupdr5 = 30
field_id flash_acr_prftbe = 31
field_id flash_acr_latency = 32
field_id gpiob_moder_moder10 = 33
field_id gpiob_moder_moder12 = 34
field_id gpiob_moder_moder13 = 35
field_id gpiob_moder_moder14 = 36
field_id gpiob_moder_moder15 = 37
field_id gpiob_otyper_ot10 = 38
field_id gpiob_otyper_ot12 = 39
field_id gpiob_otyper_ot13 = 40
field_id gpiob_otyper_ot14 = 41
field_id gpiob_otyper_ot15 = 42
field_id gpiob_ospeedr_ospeedr10 = 43
field_id gpiob_ospeedr_ospeedr12 = 44
field_id gpiob_ospeedr_ospeedr13 = 45
field_id gpiob_ospeedr_ospeedr14 = 46
field_id gpiob_ospeedr_ospeedr15 = 47
field_id gpiob_afrh_afrh13 = 48
field_id gpiob_afrh_afrh15 = 49
field_id gpiob_odr_odr12 = 50
field_id gpiob_bsrr_bs10 = 51
field_id gpiob_bsrr_bs12 = 52
field_id gpiob_bsrr_bs13 = 53
field_id gpiob_bsrr_bs14 = 54
field_id gpiob_bsrr_bs15 = 55
field_id gpiob_brr_br10 = 56
field_id gpiob_brr_br12 = 57
field_id gpiob_brr_br13 = 58
field_id gpiob_brr_br14 = 59
field_id gpiob_brr_br15 = 60
field_id spi2_cr1_bidimode = 61
field_id spi2_cr1_bidioe = 62
field_id spi2_cr1_crcen = 63
field_id spi2_cr1_crcnext = 64
field_id spi2_cr1_crcl = 65
field_id spi2_cr1_rxonly = 66
field_id spi2_cr1_ssm = 67
field_id spi2_cr1_ssi = 68
field_id spi2_cr1_lsbfirst = 69
field_id spi2_cr1_spe = 70
field_id spi2_cr1_br = 71
field_id spi2_cr1_mstr = 72
field_id spi2_cr1_cpol = 73
field_id spi2_cr1_cpha = 74
field_id spi2_cr2_ds = 75
field_id spi2_i2scfgr_i2smod = 76
field_id spi2_sr_txe = 77
field_id spi2_sr_bsy = 78
field_id spi2_dr_8bit = 79
field_id gpioc_moder_moder1 = 80
field_id gpioc_pupdr_pupdr1 = 81
field_id gpiod_moder_moder12 = 82
field_id gpiod_moder_moder13 = 83
field_id gpiod_moder_moder14 = 84
field_id gpiod_moder_moder15 = 85
field_id gpiod_pupdr_pupdr12 = 86
field_id gpiod_pupdr_pupdr13 = 87
field_id gpiod_pupdr_pupdr14 = 88
field_id gpiod_pupdr_pupdr15 = 89
field_id gpiod_idr = 90
field_id gpioe_moder = 91
field_id gpioe_odr = 92
field_id gpioe_bsrr = 93
field_id tim2_cr1_ckd = 94
field_id tim2_cr1_cms = 95
field_id tim2_cr1_dir = 96
field_id tim2_cr1_arpe = 97
field_id tim2_cr1_cen = 98
field_id tim2_cr2_mms = 99
field_id tim2_arr = 100
field_id tim2_psc = 101
field_id tim2_egr_ug = 102
field_id tim15_cr1_ckd = 103
field_id tim15_cr1_arpe = 104
field_id tim15_cr1_cen = 105
field_id tim15_cr2_mms = 106
field_id tim15_arr = 107
field_id tim15_psc = 108
field_id tim15_cnt = 109
field_id tim15_egr_ug = 110
field_id dac_cr_mamp2 = 111
field_id dac_cr_wave2 = 112
field_id dac_cr_tsel2 = 113
field_id dac_cr_ten2 = 114
field_id dac_cr_boff2 = 115
field_id dac_cr_mamp1 = 116
field_id dac_cr_wave1 = 117
field_id dac_cr_tsel1 = 118
field_id dac_cr_ten1 = 119
field_id dac_cr_boff1 = 120
field_id dac_cr_en1 = 121
field_id dac_cr_en2 = 122
field_id dac_cr_dmaen1 = 123
field_id dac_cr_dmaen2 = 124
field_id dma2_ccr3_mem2mem = 125
field_id dma2_ccr3_pl = 126
field_id dma2_ccr3_msize = 127
field_id dma2_ccr3_psize = 128
field_id dma2_ccr3_minc = 129
field_id dma2_ccr3_pinc = 130
field_id dma2_ccr3_circ = 131
field_id dma2_ccr3_dir = 132
field_id dma2_ccr3_en = 133
field_id dma2_ccr4_mem2mem = 134
field_id dma2_ccr4_pl = 135
field_id dma2_ccr4_msize = 136
field_id dma2_ccr4_psize = 137
field_id dma2_ccr4_minc = 138
field_id dma2_ccr4_pinc = 139
field_id dma2_ccr4_circ = 140
field_id dma2_ccr4_dir = 141
field_id dma2_ccr4_en = 142
field_id dma2_cndtr3 = 143
field_id dma2_cpar3 = 144
field_id dma2_cmar3 = 145
field_id dma2_cndtr4 = 146
field_id dma2_cpar4 = 147
field_id dma2_cmar4 = 148
field_id dma1_ccr1_mem2mem = 149
field_id dma1_ccr1_pl = 150
field_id dma1_ccr1_msize = 151
field_id dma1_ccr1_psize = 152
field_id dma1_ccr1_minc = 153
field_id dma1_ccr1_pinc = 154
field_id dma1_ccr1_circ = 155
field_id dma1_ccr1_dir = 156
field_id dma1_ccr1_tcie = 157
field_id dma1_ccr1_en = 158
field_id dma1_cndtr1 = 159
field_id dma1_cpar1 = 160
field_id dma1_cmar1 = 161
field_id dma1_ifcr_ctcif1 = 162
field_id adc12_ccr_ckmode = 163
field_id adc12_ccr_mdma = 164
field_id adc12_ccr_dmacfg = 165
field_id adc12_ccr_delay = 166
field_id adc12_ccr_mult = 167
field_id adc1_cr_advregen = 168
field_id adc1_cr_adcaldif = 169
field_id adc1_cr_adcal = 170
field_id adc1_cr_aden = 171
field_id adc1_cr_adstart = 172
field_id adc1_cfgr_jauto = 173
field_id adc1_cfgr_cont = 174
field_id adc1_cfgr_ovrmod = 175
field_id adc1_cfgr_exten = 176
field_id adc1_cfgr_extsel = 177
field_id adc1_cfgr_align = 178
field_id adc1_cfgr_res = 179
field_id adc1_cfgr_dmacfg = 180
field_id adc1_cfgr_dmaen = 181
field_id adc1_sqr1_sq1 = 182
field_id adc1_sqr1_l3 = 183
field_id adc1_smpr1_smp7 = 184
field_id adc1_isr_adrdy = 185
field_id adc1_isr_ovr = 186
field_id nvic_dma1ch1_priority = 187
field_id nvic_dma1ch1_enable = 188
field_id syst_reload = 189
field_id syst_current = 190
field_id syst_clock_source = 191
field_id syst_interrupt = 192
field_id syst_counter = 193
field_id scb_shpr11 = 194
