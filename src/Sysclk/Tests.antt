-- ===== src/Sysclk/Tests.antt =====
-- The start of the clocks from a reset, with two reads before the external clock is ready.
use stm32f3_oscilloscope.Prelude.{ℕ, ◌≤◌, ◌<◌, ◌≡◌, ◌≢◌, refl, [], ◌∷◌, ◌++◌, replicate, true}
use stm32f3_oscilloscope.Device.{Registers, run}
use stm32f3_oscilloscope.Sysclk.{ready, halted, turn_on_hse, set_sys_clock}
use stm32f3_oscilloscope.Sysclk.Rules.{lawful, sysclk_hz, pclk1_hz, pclk2_hz, IsReset}
use stm32f3_oscilloscope.Sysclk.Startup.{set_sys_clock_lem}

abbrev reset_state : Registers
reset_state f = 0

reset_state-IsReset : IsReset reset_state
reset_state-IsReset = record {
  on_hsi = refl;
  pll_off = refl;
  hpre = refl;
  ppre1 = refl;
  ppre2 = refl;
  latency = refl;
}

set_sys_clock_lem_example :
    ((hserdy : ℕ)
      → 2 < 1280
      → hserdy ≢ 0
      → let (end, actions) = set_sys_clock (replicate 2 0 ++ hserdy ∷ []) in
        (end ≡ ready)
        × (lawful actions reset_state ≡ true)
        × (sysclk_hz (run actions reset_state) ≡ 72_000_000)
        × (pclk1_hz (run actions reset_state) ≡ 36_000_000)
        × (pclk2_hz (run actions reset_state) ≡ 72_000_000))
    × (1280 ≤ 2 → set_sys_clock (replicate 2 0 ++ []) ≡ (halted, turn_on_hse))
set_sys_clock_lem_example = set_sys_clock_lem reset_state 2 [] reset_state-IsReset
