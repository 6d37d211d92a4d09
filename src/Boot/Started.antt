-- ===== src/Boot/Started.antt =====
-- The start of `main` in main.rs, up to the loop.
use stm32f3_oscilloscope.Prelude.{
  ℕ, ◌+◌, ◌*◌, ◌≤◌, ◌<◌, ◌≡◌, false, ◌≢◌, refl, ◌∙◌, ap, List, [], ◌∷◌, ◌++◌, length, none, some,
  replicate, get_or,
}
use stm32f3_oscilloscope.Prelude.Word.{Build, ok, >>=-of_ok}
use stm32f3_oscilloscope.Device.{
  Action, Addresses, Registers, run, dma1_ccr1_en, dma1_cndtr1, syst_reload, syst_interrupt,
  syst_counter,
}
use stm32f3_oscilloscope.Device.Safety.{run-append}
use stm32f3_oscilloscope.Sysclk.{ready, actions_for}
use stm32f3_oscilloscope.Sysclk.Rules.{tim2_hz, tim15_hz, systick_hz}
use stm32f3_oscilloscope.Sysclk.Startup.{set_sys_clock-ready, set_sys_clock-halted}
use stm32f3_oscilloscope.Led.{led_init}
use stm32f3_oscilloscope.Spi.Hardware
use stm32f3_oscilloscope.Spi.Software
use stm32f3_oscilloscope.Lcd.{landscape}
use stm32f3_oscilloscope.Sweep
use stm32f3_oscilloscope.Screen.{Screen, Driver, show}
use stm32f3_oscilloscope.Screen.Controller.Order.{IsOrderly}
use stm32f3_oscilloscope.Screen.Dark.{IsDark}
use stm32f3_oscilloscope.World.Frame.{timing}
use stm32f3_oscilloscope.Boot.Start.{
  init_leds, start_io, Connection, hardware, software, connect, after_clocks, boot,
}
use stm32f3_oscilloscope.Boot.Armed.{prepare-armed}

-- What comes before the preparation.
abbrev opening : Connection → Registers → List Action
opening c r = let clocks = actions_for ready in clocks ++ (start_io (run clocks r) ++ connect c)

-- The rates of the timers once the clocks and SysTick are set.
abbrev rates : List ℕ
rates = 0b10 ∷ 1 ∷ 7 ∷ 0 ∷ 0b100 ∷ 0 ∷ 0 ∷ 9000 ∷ 1 ∷ 1 ∷ []

opening-timing : (c : Connection) (r : Registers) → timing (run (opening c r) r) ≡ rates
unfolding start_io init_leds led_init connect Hardware.st7735_setup Software.st7735_setup
opening-timing hardware r = refl
opening-timing software r = refl

opening-idle : (c : Connection) (r : Registers) → run (opening c r) r dma1_ccr1_en ≡ r dma1_ccr1_en
unfolding start_io init_leds led_init connect Hardware.st7735_setup Software.st7735_setup
opening-idle hardware r = refl
opening-idle software r = refl

timing_at : (r : Registers) (i : ℕ) → timing r ≡ rates → get_or (timing r) i 0 ≡ get_or rates i 0
timing_at r i e = ap (λ xs. get_or xs i 0) e

-- The frequencies of the timers, and a tick of SysTick.
abbrev pub IsClocked : Registers → Type 0
IsClocked r =
    (tim2_hz r ≡ 72_000_000)
    × (tim15_hz r ≡ 72_000_000)
    × (systick_hz r ≡ 9_000_000)
    × (1000 * (r syst_reload + 1) ≡ systick_hz r + 1000)
    × (r syst_interrupt ≡ 1)
    × (r syst_counter ≡ 1)

rates-IsClocked : (r : Registers) → timing r ≡ rates → IsClocked r
rates-IsClocked r e =
    rw
      (
        timing_at r 0 e,
        timing_at r 1 e,
        timing_at r 2 e,
        timing_at r 3 e,
        timing_at r 4 e,
        timing_at r 5 e,
        timing_at r 6 e,
        timing_at r 7 e,
      )
      (refl, refl, refl, refl, timing_at r 8 e, timing_at r 9 e)

-- Four stretches of actions, the last one by itself.
run-stretches :
    (xs ys zs ws : List Action) (r : Registers)
    → run (xs ++ (ys ++ (zs ++ ws))) r ≡ run ws (run (xs ++ (ys ++ zs)) r)
run-stretches xs ys zs ws r = rw (
  run-append xs (ys ++ (zs ++ ws)) r,
  run-append ys (zs ++ ws) (run xs r),
  run-append zs ws (run ys (run xs r)),
  run-append xs (ys ++ zs) r,
  run-append ys zs (run xs r),
)

-- What comes before the preparation does not touch the display.
opening-IsDark :
    (d : Driver) (c : Connection) (r : Registers) (actions : List Action) (s : Screen)
    → IsDark (show d actions s)
    → IsDark (show d (actions_for ready ++ (start_io r ++ (connect c ++ actions))) s)
unfolding start_io init_leds led_init connect Hardware.st7735_setup Software.st7735_setup
opening-IsDark d hardware r actions s h = h
opening-IsDark d software r actions s h = h

opening-IsOrderly :
    (c : Connection) (r : Registers) (actions : List Action)
    → IsOrderly false actions
    → IsOrderly false (actions_for ready ++ (start_io r ++ (connect c ++ actions)))
unfolding start_io init_leds led_init connect Hardware.st7735_setup Software.st7735_setup
opening-IsOrderly hardware r actions h = h
opening-IsOrderly software r actions h = h

-- With the DMA channel of the capture disabled at reset, the data registers at the addresses that
-- the code asserts, a font of 1,536 bytes, and either form of the connection: if the external clock
-- is ready within 1,279 further reads, `main` gets to its loop in both builds, with its first
-- variables, the channel disabled and 160 items to go, the two timers at 72 MHz, SysTick at 9 MHz
-- with its interrupt on, where 1,000 ticks take 1,000 counts more than a second, no white pixel on
-- the display, and pixels sent to an open window only. If the clock is not ready in 1,280 reads,
-- `main` never gets there.
pub boot-armed :
    (b : Build) (font : List ℕ) (a : Addresses) (c : Connection) (r : Registers) (k : ℕ)
    (later : List ℕ)
    → length font ≡ 1536
    → a.dac_dhr12r2 ≡ 0x40007414
    → a.dac_dhr8r1 ≡ 0x40007410
    → a.adc1_dr ≡ 0x50000040
    → r dma1_ccr1_en ≡ 0
    → ((hserdy : ℕ)
        → k < 1280
        → hserdy ≢ 0
        → (actions : List Action) × (boot b landscape font a c (replicate k 0 ++ hserdy ∷ later) r
            ≡ some (ok (Sweep.start, actions)))
          × (run actions r dma1_ccr1_en ≡ 0)
          × (run actions r dma1_cndtr1 ≡ 160)
          × IsClocked (run actions r)
          × ((d : Driver) (s : Screen) → IsDark (show d actions s))
          × IsOrderly false actions)
      × (1280 ≤ k → boot b landscape font a c (replicate k 0 ++ later) r ≡ none)
unfolding boot after_clocks
boot-armed b font a c r k later size e3 e4 e1 idle = (
  λ hserdy h on.
      let clocks = actions_for ready in
      let io = start_io (run clocks r) in
      let (actions, returns, off, full, kept, dark, orderly) =
        prepare-armed b font a (run (opening c r) r) size e3 e4 e1 (opening-idle c r ∙ idle) in
      let same = run-stretches clocks io (connect c) actions r in
      (
        clocks ++ (io ++ (connect c ++ actions)),
        ap (after_clocks b landscape font a c r) (set_sys_clock-ready k hserdy later h on)
            ∙ ap some (>>=-of_ok _ returns refl),
        ap (λ s. s dma1_ccr1_en) same ∙ off,
        ap (λ s. s dma1_cndtr1) same ∙ full,
        rates-IsClocked (run (clocks ++ (io ++ (connect c ++ actions))) r)
            (ap timing same ∙ kept ∙ opening-timing c r),
        λ d s. opening-IsDark d c (run clocks r) actions s (dark d s),
        opening-IsOrderly c (run clocks r) actions orderly,
      ),
  λ h. ap (after_clocks b landscape font a c r) (set_sys_clock-halted k later h),
)
