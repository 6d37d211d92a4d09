-- ===== src/Sysclk.antt =====
-- sysclk.rs: the system clock, from the external clock of the board and the PLL.
pub mod Rules
pub mod Startup
mod Tests
use stm32f3_oscilloscope.Prelude.{ℕ, suc, ◌-◌, List, [], ◌∷◌, ◌++◌, ◌==◌, if◌then◌else◌}
use stm32f3_oscilloscope.Device.{
  Action, modify, await, rcc_cr_hsion, rcc_cr_hseon, rcc_cr_hserdy, rcc_cr_hsebyp, rcc_cr_pllon,
  rcc_cr_pllrdy, rcc_cfgr_sw, rcc_cfgr_sws, rcc_cfgr_hpre, rcc_cfgr_ppre1, rcc_cfgr_ppre2,
  rcc_cfgr_pllsrc, rcc_cfgr_pllmul, flash_acr_prftbe, flash_acr_latency,
}

-- How the wait for the external clock ends: it is ready, the program stops at the breakpoint, or
-- the given readings are used up and it still waits.
pub data Outcome : Type 0 where
  ready halted waiting : Outcome

-- The loop that waits for the external clock, from what each read of `hserdy` gives in turn.
unfoldable pub wait_hse : ℕ → List ℕ → Outcome
wait_hse startup_count [] = waiting
wait_hse startup_count (hserdy ∷ later) =
    let rest = wait_hse (startup_count - 1) later in
    if hserdy == 0 then (if startup_count - 1 == 0 then halted else rest) else ready

abbrev pub turn_on_hse : List Action
turn_on_hse = modify ((rcc_cr_hseon, 1) ∷ (rcc_cr_hsebyp, 1) ∷ []) ∷ []

-- What follows the wait.
abbrev pub switch_to_pll : List Action
switch_to_pll =
    modify ((flash_acr_prftbe, 1) ∷ (flash_acr_latency, 0b010) ∷ [])
    ∷ modify ((rcc_cfgr_hpre, 0) ∷ (rcc_cfgr_ppre2, 0) ∷ (rcc_cfgr_ppre1, 0b100) ∷ [])
    ∷ modify ((rcc_cfgr_pllsrc, 1) ∷ (rcc_cfgr_pllmul, 0b0111) ∷ [])
    ∷ modify ((rcc_cr_pllon, 1) ∷ [])
    ∷ await rcc_cr_pllrdy 1
    ∷ modify ((rcc_cfgr_sw, 0b10) ∷ [])
    ∷ await rcc_cfgr_sws 0b10
    ∷ modify ((rcc_cr_hsion, 0) ∷ [])
    ∷ []

abbrev pub actions_for : Outcome → List Action
actions_for ready = turn_on_hse ++ (await rcc_cr_hserdy 1 ∷ switch_to_pll)
actions_for halted = turn_on_hse
actions_for waiting = turn_on_hse

-- How far the function comes, and its accesses.
unfoldable pub set_sys_clock : List ℕ → Outcome × List Action
unfolding wait_hse
set_sys_clock readings = let end = wait_hse 0x500 readings in (end, actions_for end)
