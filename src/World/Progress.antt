-- ===== src/World/Progress.antt =====
-- The passes of the main loop in main.rs at the end of a sweep.
use stm32f3_oscilloscope.Prelude.{
  ℕ, zero, suc, ◌+◌, ◌-◌, ◌≡◌, ◌∙◌, refl, ap, true, false, List, length, get_or, leb, arith,
}
use stm32f3_oscilloscope.Prelude.Word.{Build, Result, ok, ◌>>=◌, >>=-of_ok}
use stm32f3_oscilloscope.Device.{dma1_cndtr1}
use stm32f3_oscilloscope.Lcd.{Panel, landscape}
use stm32f3_oscilloscope.Sweep.{during, after, sweep}
use stm32f3_oscilloscope.Sweep.Plot.{plotted_row, plotted_color}
use stm32f3_oscilloscope.World.{World, after_actions}
use stm32f3_oscilloscope.World.Sound.{IsSound, phase_at, plotted_out, drawn-IsSilent}
use stm32f3_oscilloscope.World.Pass.{sweep-plots}
use stm32f3_oscilloscope.World.Invariant.{pass-IsSound}

-- `n` passes with nothing else in between.
unfoldable pub passes : Build → Panel → List ℕ → ℕ → World → Result World
passes b p font zero w = ok w
passes b p font (suc n) w =
    sweep b p font w.regs w.captured w.scope >>= λ out. passes b p font n (after_actions w out)

module _ (b : Build) (font : List ℕ) (size : length font ≡ 1536) where
  -- A pass with nothing left to transfer.
  plotted-counter :
      (w : World) → (after_actions w (plotted_out w)).regs dma1_cndtr1 ≡ w.regs dma1_cndtr1
  plotted-counter w =
      let x = w.scope.x_out in
      let raw = get_or w.captured x 0 in
      ap (λ r. r dma1_cndtr1)
        (drawn-IsSilent x (get_or w.scope.previous_y x 0) (plotted_row raw) (plotted_color raw)
          w.regs)

  drains :
      (n : ℕ) (w : World)
      → IsSound w
      → w.scope.state ≡ during
      → w.regs dma1_cndtr1 ≡ 0
      → w.scope.x_out + suc n ≡ 160
      → (w' : World) × (passes b landscape font (suc n) w ≡ ok w')
        × (w'.scope.state ≡ after)
        × IsSound w'
  unfolding passes
  drains zero w v e empty rest =
      let plots = sweep-plots b font size w e v (omega arith) in
      let last : leb 160 (w.scope.x_out + 1) ≡ true = ground arith in
      (
        after_actions w (plotted_out w),
        >>=-of_ok _ plots refl,
        rw last refl,
        pass-IsSound b font size w (plotted_out w) plots v,
      )
  drains (suc m) w v e empty rest =
      let plots = sweep-plots b font size w e v (omega arith) in
      let more : leb 160 (w.scope.x_out + 1) ≡ false = ground arith in
      let (w', run_on, ends, v') =
        drains m (after_actions w (plotted_out w))
          (pass-IsSound b font size w (plotted_out w) plots v) (rw more e)
          (plotted-counter w ∙ empty) (omega arith) in
      (w', >>=-of_ok _ plots run_on, ends, v')

  -- With the transfer over and `x_out` columns plotted, 160 - `x_out` passes return and lead from
  -- `during` to `after`, from any sound world and with a font of 1,536
  -- bytes.
  pub passes-after :
      (w : World)
      → IsSound w
      → w.scope.state ≡ during
      → w.regs dma1_cndtr1 ≡ 0
      → (w' : World) × (passes b landscape font (160 - w.scope.x_out) w ≡ ok w')
        × (w'.scope.state ≡ after)
  passes-after w v e empty =
      let (on, inside, behind) = phase_at w during e v in
      let n = 159 - w.scope.x_out in
      let (w', returns, ends, _) = drains n w v e empty (omega arith) in
      let same : 160 - w.scope.x_out ≡ suc n = omega arith in (w', rw same returns, ends)
