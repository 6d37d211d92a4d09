-- ===== src/Sysclk/Rules.antt =====
-- The rules of the reference manual for the clocks, and `set_sys_clock` of sysclk.rs under them.
use stm32f3_oscilloscope.Prelude.{
  ℕ, ◌+◌, ◌-◌, ◌*◌, ◌/◌, ◌^◌, ◌≡◌, Bool, true, ◌&&◌, List, [], ◌∷◌, ltb, leb, ◌==◌, if◌then◌else◌,
}
use stm32f3_oscilloscope.Device.{
  Field, Action, modify, write, await, delay_ms, lcd, Registers, apply, rcc_cr_hsion, rcc_cr_hserdy,
  rcc_cr_pllon, rcc_cr_pllrdy, rcc_cfgr_sw, rcc_cfgr_sws, rcc_cfgr_hpre, rcc_cfgr_ppre1,
  rcc_cfgr_ppre2, rcc_cfgr_pllsrc, rcc_cfgr_pllmul, flash_acr_latency, syst_clock_source,
}
use stm32f3_oscilloscope.Sysclk.{actions_for, ready}

-- The frequency of the system clock: of the internal or the external oscillator, of 8 MHz each, or
-- of the PLL, which multiplies the external one or half the internal one.
abbrev pub sysclk_hz : Registers → ℕ
sysclk_hz r =
    if r rcc_cfgr_sws == 0b10
    then (if r rcc_cfgr_pllsrc == 1 then 8_000_000 else 4_000_000) * (r rcc_cfgr_pllmul + 2)
    else 8_000_000

-- What the prescaler bits of a bus divide by.
abbrev pub bus_divider : ℕ → ℕ
bus_divider ppre = if ltb ppre 4 then 1 else 2 ^ (ppre - 3)

-- Of the prescaler of the AHB only the setting that divides by 1 is read.
abbrev pub hclk_hz : Registers → ℕ
hclk_hz r = if r rcc_cfgr_hpre == 0 then sysclk_hz r else 0

abbrev pub pclk1_hz : Registers → ℕ
pclk1_hz r = hclk_hz r / bus_divider (r rcc_cfgr_ppre1)

abbrev pub pclk2_hz : Registers → ℕ
pclk2_hz r = hclk_hz r / bus_divider (r rcc_cfgr_ppre2)

-- A timer on a bus has the bus's clock, or twice that where the bus is divided; SysTick counts at
-- the core's clock, or at an eighth of it.
abbrev pub timer_hz : ℕ → ℕ → ℕ
timer_hz pclk ppre = if bus_divider ppre == 1 then pclk else 2 * pclk

abbrev pub tim2_hz : Registers → ℕ
tim2_hz r = timer_hz (pclk1_hz r) (r rcc_cfgr_ppre1)

abbrev pub tim15_hz : Registers → ℕ
tim15_hz r = timer_hz (pclk2_hz r) (r rcc_cfgr_ppre2)

abbrev pub systick_hz : Registers → ℕ
systick_hz r = if r syst_clock_source == 0 then hclk_hz r / 8 else hclk_hz r

-- The flash memory wants a wait state above 24 MHz and another above 48 MHz, and no bus may be
-- faster than its limit.
abbrev pub in_limits : Registers → Bool
in_limits r =
    leb (sysclk_hz r) (24_000_000 * (r flash_acr_latency + 1))
    && (leb (hclk_hz r) 72_000_000 && (leb (pclk1_hz r) 36_000_000 && leb (pclk2_hz r) 72_000_000))

-- When a field may be given a value: the PLL is set while it is off and turned on while its source
-- runs, a clock is chosen while it is ready, and an oscillator is turned off while it is not used.
abbrev pub may_set : Field → ℕ → Registers → Bool
may_set rcc_cfgr_pllsrc v r = r rcc_cr_pllon == 0
may_set rcc_cfgr_pllmul v r = r rcc_cr_pllon == 0
may_set rcc_cr_pllon v r = r rcc_cfgr_pllsrc == 1 && (r rcc_cr_hserdy == 1)
may_set rcc_cfgr_sw v r = v == 0b10 && (r rcc_cr_pllrdy == 1)
may_set rcc_cr_hsion v r = r rcc_cfgr_sws == 0b10 && (r rcc_cfgr_pllsrc == 1)
may_set f v r = true

abbrev may_set_all : List (Field × ℕ) → Registers → Bool
may_set_all [] r = true
may_set_all ((f, v) ∷ fs) r = may_set f v r && may_set_all fs r

abbrev pub may_act : Action → Registers → Bool
may_act (modify fs) r = may_set_all fs r
may_act (write fs) r = may_set_all fs r
may_act (await f v) r = true
may_act (delay_ms n) r = true
may_act (lcd c) r = true

-- Whether each action keeps the rules, and the limits hold before and after each.
abbrev pub lawful : List Action → Registers → Bool
lawful [] r = in_limits r
lawful (a ∷ later) r = in_limits r && (may_act a r && lawful later (apply a r))

-- What the program assumes of the clocks at its start, as after a reset.
pub record IsReset (r : Registers) : Type 0 where
  pub on_hsi : r rcc_cfgr_sws ≡ 0
  pub pll_off : r rcc_cr_pllon ≡ 0
  pub hpre : r rcc_cfgr_hpre ≡ 0
  pub ppre1 : r rcc_cfgr_ppre1 ≡ 0
  pub ppre2 : r rcc_cfgr_ppre2 ≡ 0
  pub latency : r flash_acr_latency ≡ 0

pub switch-lawful : (r : Registers) → IsReset r → lawful (actions_for ready) r ≡ true
switch-lawful r v = rw (v.on_hsi, v.pll_off, v.hpre, v.ppre1, v.ppre2, v.latency)
