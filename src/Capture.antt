-- ===== src/Capture.antt =====
-- capture.rs: the input capture on ADC1, DMA1 and TIM15.
pub mod Configure
pub mod Setup
pub mod Timebase
mod Tests
use stm32f3_oscilloscope.Prelude.{ℕ, ◌/◌, Bool, not, List, [], ◌∷◌, ltb, ◌==◌, if◌then◌else◌}
use stm32f3_oscilloscope.Prelude.Word.{Build, Result, ok, ◌>>=◌, div, sub_u32}
use stm32f3_oscilloscope.Device.{
  Action, modify, write, Registers, dma1_ccr1_en, dma1_cndtr1, adc1_cr_adstart, adc1_isr_ovr,
  tim15_arr, tim15_psc, tim15_cnt, tim15_egr_ug,
}

-- The length of `CAPTURE_CHANNEL_1`.
abbrev pub samples : ℕ
samples = 160

unfoldable pub begin_sweep : List Action
begin_sweep = modify ((dma1_ccr1_en, 1) ∷ []) ∷ modify ((adc1_cr_adstart, 1) ∷ []) ∷ []

-- `usize` has 32 bits.
unfoldable pub get_transferred_sample_count : Build → Registers → Result ℕ
get_transferred_sample_count b r = sub_u32 b 160 (r dma1_cndtr1)

unfoldable pub finish_sweep : List Action
finish_sweep = modify ((dma1_ccr1_en, 0) ∷ []) ∷ write ((dma1_cndtr1, 160) ∷ []) ∷ []

unfoldable pub check_adc_ovr_flag : Registers → Bool × List Action
check_adc_ovr_flag r =
    let ovr = not (r adc1_isr_ovr == 0) in
    (ovr, if ovr then modify ((adc1_isr_ovr, 1) ∷ []) ∷ [] else [])

-- The reload value and the prescaler for a sampling rate.
unfoldable pub timebase_for : Build → ℕ → Result (ℕ × ℕ)
timebase_for b samples_per_second =
    if ltb 1097 samples_per_second
    then (do ticks ← div 72_000_000 samples_per_second; arr ← sub_u32 b ticks 1; ok (arr, 0))
    else (do
      ticks ← div (72_000_000 / 2250) samples_per_second
      arr ← sub_u32 b ticks 1
      ok (arr, 2249))

abbrev pub timebase_actions : ℕ → ℕ → List Action
timebase_actions arr psc =
    write ((tim15_arr, arr) ∷ [])
    ∷ write ((tim15_psc, psc) ∷ [])
    ∷ write ((tim15_cnt, 0) ∷ [])
    ∷ write ((tim15_egr_ug, 1) ∷ [])
    ∷ []

unfoldable pub set_timebase : Build → ℕ → Result (List Action)
unfolding timebase_for
set_timebase b samples_per_second = do
  (arr, psc) ← timebase_for b samples_per_second
  ok (timebase_actions arr psc)
