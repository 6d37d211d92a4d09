-- ===== src/Capture/Setup.antt =====
-- `setup` of capture.rs and the rules of the hardware.
use stm32f3_oscilloscope.Prelude.{
  ℕ, ◌+◌, ◌-◌, ◌*◌, ◌^◌, ◌≡◌, refl, List, [], ◌∷◌, Option, none, some, leb, ◌==◌, if◌then◌else◌,
}
use stm32f3_oscilloscope.Prelude.Word.{Build, ok, debug, release}
use stm32f3_oscilloscope.Device
use stm32f3_oscilloscope.Device.{
  Field, Action, modify, write, await, delay_ms, lcd, Addresses, Registers, run,
}
use stm32f3_oscilloscope.Capture.{samples}
use stm32f3_oscilloscope.Capture.Configure.{setup_actions, setup}

-- The order in which the reference manual has the converter started: the regulator goes through its
-- intermediate state and is given time, the calibration is run to its end, and the converter is
-- enabled and waited for.
pub data Phase : Type 0 where
  off intermediate regulating settled calibrating calibrated enabling ready : Phase

abbrev pub access : Field → ℕ → Phase → Option Phase
access Device.adc1_cr_advregen v off = if v == 0b00 then some intermediate else none
access Device.adc1_cr_advregen v intermediate = if v == 0b01 then some regulating else none
access Device.adc1_cr_advregen v _ = none
access Device.adc1_cr_adcal v settled = if v == 1 then some calibrating else none
access Device.adc1_cr_adcal v _ = none
access Device.adc1_cr_aden v calibrated = if v == 1 then some enabling else none
access Device.adc1_cr_aden v _ = none
access f v s = some s

abbrev pub accesses : List (Field × ℕ) → Phase → Option Phase
accesses [] s = some s
accesses ((f, v) ∷ fs) s = elim (access f v s) [ none ↦ none | some s' ↦ accesses fs s' ]

abbrev pub waited : Field → ℕ → Phase → Phase
waited Device.adc1_cr_adcal v calibrating = if v == 0 then calibrated else calibrating
waited Device.adc1_isr_adrdy v enabling = if v == 1 then ready else enabling
waited f v s = s

abbrev pub delayed : ℕ → Phase → Phase
delayed ms regulating = if leb 1 ms then settled else regulating
delayed ms s = s

-- The phase after a sequence of accesses; `none` where one is out of order.
abbrev pub started : List Action → Phase → Option Phase
started [] s = some s
started (modify fs ∷ later) s = elim (accesses fs s) [ none ↦ none | some s' ↦ started later s' ]
started (write fs ∷ later) s = elim (accesses fs s) [ none ↦ none | some s' ↦ started later s' ]
started (await f v ∷ later) s = started later (waited f v s)
started (delay_ms ms ∷ later) s = started later (delayed ms s)
started (lcd c ∷ later) s = started later s

-- The converter alone reads channel 7, on its analog pin, one conversion for each update of TIM15,
-- of 12 bits to the right of its register, at half the clock of the bus; TIM15 runs with a buffered
-- period, at first of 1 ms at 72 MHz. DMA1 is set, but not enabled, to move as many conversions of
-- 16 bits as the buffer holds from that register, which stays, into the buffer, place by place, and
-- then to interrupt.
pub record IsReady (a : Addresses) (r : Registers) : Type 0 where
  pub pin : (r Device.gpioc_moder_moder1 ≡ 3) × (r Device.gpioc_pupdr_pupdr1 ≡ 0)
  pub clock : (r Device.adc12_ccr_ckmode ≡ 0b10) × (r Device.adc12_ccr_mult ≡ 0)
  pub single_ended : r Device.adc1_cr_adcaldif ≡ 0
  pub converter :
      (r Device.adc1_cr_advregen ≡ 0b01)
      × (r Device.adc1_cr_aden ≡ 1)
      × (r Device.adc1_cfgr_cont ≡ 0)
      × (r Device.adc1_cfgr_jauto ≡ 0)
  pub channel :
      (r Device.adc1_sqr1_sq1 ≡ 7)
      × (r Device.adc1_sqr1_l3 + 1 ≡ 1)
      × (r Device.adc1_smpr1_smp7 ≡ 0b011)
  pub conversion : (12 - 2 * r Device.adc1_cfgr_res ≡ 12) × (r Device.adc1_cfgr_align ≡ 0)
  pub requests :
      (r Device.adc1_cfgr_dmaen ≡ 1)
      × (r Device.adc1_cfgr_dmacfg ≡ 0)
      × (r Device.adc12_ccr_mdma ≡ 0)
      × (r Device.adc1_cfgr_ovrmod ≡ 1)
  pub trigger : (r Device.adc1_cfgr_exten ≡ 0b01) × (r Device.adc1_cfgr_extsel ≡ 0b1110)
  pub timer :
      (r Device.tim15_cr1_cen ≡ 1)
      × (r Device.tim15_cr1_arpe ≡ 1)
      × (r Device.tim15_cr2_mms ≡ 0b010)
  pub period : 1000 * ((r Device.tim15_arr + 1) * (r Device.tim15_psc + 1)) ≡ 72_000_000
  pub transfer :
      (r Device.dma1_ccr1_en ≡ 0)
      × (r Device.dma1_cndtr1 ≡ samples)
      × (r Device.dma1_cpar1 ≡ a.adc1_dr)
      × (r Device.dma1_cmar1 ≡ a.capture_channel_1)
  pub items : (8 * 2 ^ r Device.dma1_ccr1_msize ≡ 16) × (8 * 2 ^ r Device.dma1_ccr1_psize ≡ 16)
  pub direction : (r Device.dma1_ccr1_dir ≡ 0) × (r Device.dma1_ccr1_mem2mem ≡ 0)
  pub steps : (r Device.dma1_ccr1_minc ≡ 1) × (r Device.dma1_ccr1_pinc ≡ 0)
  pub one_shot : r Device.dma1_ccr1_circ ≡ 0
  pub interrupt : (r Device.dma1_ccr1_tcie ≡ 1) × (r Device.nvic_dma1ch1_enable ≡ 1)

pub setup-ok :
    (b : Build) (a : Addresses) → a.adc1_dr ≡ 0x50000040 → setup b a ≡ ok (setup_actions a)
unfolding setup
setup-ok debug a e = rw e
setup-ok release a e = refl

module _ (a : Addresses) (r : Registers) (idle : r Device.dma1_ccr1_en ≡ 0) where
  pub setup_actions-IsReady : IsReady a (run (setup_actions a) r)
  unfolding setup_actions
  setup_actions-IsReady = record {
    pin = (refl, refl);
    clock = (refl, refl);
    single_ended = refl;
    converter = (refl, refl, refl, refl);
    channel = (refl, refl, refl);
    conversion = (refl, refl);
    requests = (refl, refl, refl, refl);
    trigger = (refl, refl);
    timer = (refl, refl, refl);
    period = refl;
    transfer = (idle, refl, refl, refl);
    items = (refl, refl);
    direction = (refl, refl);
    steps = (refl, refl);
    one_shot = refl;
    interrupt = (refl, refl);
  }
