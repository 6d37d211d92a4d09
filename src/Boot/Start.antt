-- ===== src/Boot/Start.antt =====
-- The start of `main` in main.rs: the clocks, the ports, the LEDs, SysTick, the buttons' pins, the
-- connection to the display, and then the preparation.
use stm32f3_oscilloscope.Prelude.{ℕ, Option, none, some, List, [], ◌∷◌, ◌++◌}
use stm32f3_oscilloscope.Prelude.Word.{Build, Result, ok, ◌>>=◌}
use stm32f3_oscilloscope.Device.{
  Action, modify, write, Addresses, Registers, run, rcc_ahbenr_iopden, rcc_ahbenr_iopeen,
  gpiod_moder_moder12, gpiod_moder_moder13, gpiod_moder_moder14, gpiod_moder_moder15,
  gpiod_pupdr_pupdr12, gpiod_pupdr_pupdr13, gpiod_pupdr_pupdr14, gpiod_pupdr_pupdr15, gpioe_moder,
  syst_reload, syst_current, syst_clock_source, syst_interrupt, syst_counter, scb_shpr11,
}
use stm32f3_oscilloscope.Sysclk.{Outcome, ready, halted, waiting, set_sys_clock}
use stm32f3_oscilloscope.Led.{ld3, ld4, ld5, led_init}
use stm32f3_oscilloscope.Spi.Hardware
use stm32f3_oscilloscope.Spi.Software
use stm32f3_oscilloscope.Lcd.{Panel}
use stm32f3_oscilloscope.Sweep.{Scope}
use stm32f3_oscilloscope.Boot.{prepare}

abbrev pub power_on : List Action
power_on = modify ((rcc_ahbenr_iopden, 1) ∷ (rcc_ahbenr_iopeen, 1) ∷ []) ∷ []

-- Each call reads the mode register that the one before left.
unfoldable pub init_leds : Registers → List Action
init_leds r =
    let first = led_init ld3 (r gpioe_moder) in
    let r₁ = run first r in
    let second = led_init ld4 (r₁ gpioe_moder) in
    let r₂ = run second r₁ in first ++ (second ++ led_init ld5 (r₂ gpioe_moder))

-- `SystClkSource::External` is 0.
abbrev pub start_systick : List Action
start_systick =
    write ((syst_reload, 9000) ∷ [])
    ∷ write ((scb_shpr11, 0xf0) ∷ [])
    ∷ write ((syst_current, 0) ∷ [])
    ∷ modify ((syst_clock_source, 0) ∷ [])
    ∷ modify ((syst_interrupt, 1) ∷ [])
    ∷ modify ((syst_counter, 1) ∷ [])
    ∷ []

-- `input()` is 0.
abbrev pub setup_buttons : List Action
setup_buttons =
    modify (
      (gpiod_moder_moder12, 0)
      ∷ (gpiod_moder_moder13, 0)
      ∷ (gpiod_moder_moder14, 0)
      ∷ (gpiod_moder_moder15, 0)
      ∷ [])
    ∷ modify (
        (gpiod_pupdr_pupdr12, 0b01)
        ∷ (gpiod_pupdr_pupdr13, 0b01)
        ∷ (gpiod_pupdr_pupdr14, 0b01)
        ∷ (gpiod_pupdr_pupdr15, 0b01)
        ∷ [])
    ∷ []

-- The critical section at the start of `main`.
unfoldable pub start_io : Registers → List Action
unfolding init_leds
start_io r = power_on ++ (init_leds (run power_on r) ++ (start_systick ++ setup_buttons))

-- The feature `software-spi`.
pub data Connection : Type 0 where
  hardware software : Connection

unfoldable pub connect : Connection → List Action
unfolding Hardware.st7735_setup Software.st7735_setup
connect hardware = Hardware.st7735_setup
connect software = Software.st7735_setup

-- What `main` does once `set_sys_clock` has come to an end.
unfoldable pub after_clocks :
    Build
    → Panel
    → List ℕ
    → Addresses
    → Connection
    → Registers
    → Outcome × List Action
    → Option (Result (Scope × List Action))
unfolding prepare connect start_io
after_clocks b p font a connection r (ready, clocks) = some (do
  (s, actions) ← prepare b p font a
  ok (s, clocks ++ (start_io (run clocks r) ++ (connect connection ++ actions))))
after_clocks b p font a connection r (halted, clocks) = none
after_clocks b p font a connection r (waiting, clocks) = none

-- `main` up to the loop, from the readings of the external clock's flag; `none` where it does not
-- get past the wait for that clock.
unfoldable pub boot :
    Build
    → Panel
    → List ℕ
    → Addresses
    → Connection
    → List ℕ
    → Registers
    → Option (Result (Scope × List Action))
unfolding after_clocks
boot b p font a connection readings r =
    after_clocks b p font a connection r (set_sys_clock readings)
