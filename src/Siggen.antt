-- ===== src/Siggen.antt =====
-- siggen.rs: the signal generator on the DAC, DMA2 and TIM2.
pub mod Tables
pub mod Configure
pub mod Waves
pub mod Frequency
pub mod Setup
mod Tests
use stm32f3_oscilloscope.Prelude.{ℕ, ◌/◌, List, [], ◌∷◌, max}
use stm32f3_oscilloscope.Prelude.Word.{Build, Result, ok, ◌>>=◌, div, sub_u32}
use stm32f3_oscilloscope.Device.{Action, write, tim2_arr}

-- The value for the auto-reload register: the timer runs at 36 MHz, and steps 144 samples a period.
pub arr_for : Build → ℕ → Result ℕ
arr_for b freq = do steps ← div (36_000_000 / 144) freq; last ← sub_u32 b steps 1; ok (max last 1)

unfoldable pub siggen_set_freq : Build → ℕ → Result (List Action)
unfolding arr_for
siggen_set_freq b freq = do arr ← arr_for b freq; ok (write ((tim2_arr, arr) ∷ []) ∷ [])
