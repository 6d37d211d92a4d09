-- ===== src/Sysclk/Startup.antt =====
-- `set_sys_clock` of sysclk.rs from the readings of the external clock's flag to the end.
use stm32f3_oscilloscope.Prelude.{
  ℕ, zero, suc, ◌-◌, ◌≤◌, ◌<◌, ◌≡◌, ◌≢◌, refl, List, ◌∷◌, ◌++◌, replicate, true, arith,
}
use stm32f3_oscilloscope.Device.{Registers, run}
use stm32f3_oscilloscope.Sysclk.{ready, halted, wait_hse, turn_on_hse, actions_for, set_sys_clock}
use stm32f3_oscilloscope.Sysclk.Rules.{
  lawful, sysclk_hz, pclk1_hz, pclk2_hz, IsReset, switch-lawful,
}

wait_hse-ready :
    (k n hserdy : ℕ) (later : List ℕ)
    → k < n
    → hserdy ≢ 0
    → wait_hse n (replicate k 0 ++ hserdy ∷ later) ≡ ready
unfolding wait_hse
wait_hse-ready zero n hserdy later h on = ground arith
wait_hse-ready (suc k) n hserdy later h on = ground (arith, wait_hse-ready k (n - 1) hserdy later)

wait_hse-halted :
    (k n : ℕ) (later : List ℕ) → 0 < n → n ≤ k → wait_hse n (replicate k 0 ++ later) ≡ halted
unfolding wait_hse
wait_hse-halted zero n later h le = absurd (omega arith)
wait_hse-halted (suc k) n later h le = ground (arith, wait_hse-halted k (n - 1) later)

pub set_sys_clock-ready :
    (k hserdy : ℕ) (later : List ℕ)
    → k < 1280
    → hserdy ≢ 0
    → set_sys_clock (replicate k 0 ++ hserdy ∷ later) ≡ (ready, actions_for ready)
unfolding set_sys_clock
set_sys_clock-ready k hserdy later h on = rw (wait_hse-ready k 1280 hserdy later h on)

pub set_sys_clock-halted :
    (k : ℕ) (later : List ℕ)
    → 1280 ≤ k
    → set_sys_clock (replicate k 0 ++ later) ≡ (halted, turn_on_hse)
unfolding set_sys_clock
set_sys_clock-halted k later h = rw (wait_hse-halted k 1280 later (omega arith) h)

-- From the clocks' reset state. With fewer than 1,280 reads before the one that finds the external
-- clock ready, `set_sys_clock` goes through: each step keeps the manual's rules for the clocks and
-- the flash memory, and it ends at 72 MHz on the core and the buses but APB1, which has 36 MHz.
-- With 1,280 reads or more that find it not ready, the program stops at its breakpoint.
pub set_sys_clock_lem :
    (r : Registers) (k : ℕ) (later : List ℕ)
    → IsReset r
    → ((hserdy : ℕ)
        → k < 1280
        → hserdy ≢ 0
        → let (end, actions) = set_sys_clock (replicate k 0 ++ hserdy ∷ later) in
          (end ≡ ready)
          × (lawful actions r ≡ true)
          × (sysclk_hz (run actions r) ≡ 72_000_000)
          × (pclk1_hz (run actions r) ≡ 36_000_000)
          × (pclk2_hz (run actions r) ≡ 72_000_000))
      × (1280 ≤ k → set_sys_clock (replicate k 0 ++ later) ≡ (halted, turn_on_hse))
set_sys_clock_lem r k later v = (
  λ hserdy h on.
      rw (set_sys_clock-ready k hserdy later h on) (refl, switch-lawful r v, refl, refl, refl),
  set_sys_clock-halted k later,
)
