-- ===== src/World/Pass.antt =====
-- A pass through the match of the sweep, from a world where the channel and the trace agree.
use stm32f3_oscilloscope.Prelude.{
  ℕ, ◌-◌, ◌≤◌, ◌<◌, ◌≡◌, refl, ap, ◌∙◌, inl, inr, List, [], ◌++◌, length, get_or, All-set,
  length-set, ltb, ltb→lt, ltb→le, Bool-cases, arith,
}
use stm32f3_oscilloscope.Prelude.Word.{Build, ok}
use stm32f3_oscilloscope.Device.{Action, dma1_ccr1_en, dma1_cndtr1}
use stm32f3_oscilloscope.Led.{ld3, led_on}
use stm32f3_oscilloscope.Capture.{begin_sweep}
use stm32f3_oscilloscope.Lcd.{landscape}
use stm32f3_oscilloscope.Sweep.{SweepState, before, during, after, Scope, sweep_from, sweep}
use stm32f3_oscilloscope.Sweep.Plot.{
  plotted_row, plotted_color, plotted_row-shift, sweep_during-waits, sweep_during-plots,
}
use stm32f3_oscilloscope.World.{World, after_actions}
use stm32f3_oscilloscope.World.Frame.{sweep_after-ok}
use stm32f3_oscilloscope.World.Sound.{
  IsRow, IsSound, phase_at, advance, drawn-IsSilent, plotted_out, next_conversion, plotted-set,
}

module _ (b : Build) (font : List ℕ) (size : length font ≡ 1536) where
  -- A pass in each state returns, and leads to a sound world.
  abbrev pub Passes : World → Type 0
  Passes w =
      (out : Scope × List Action) × (sweep b landscape font w.regs w.captured w.scope ≡ ok out)
      × IsSound (after_actions w out)

  pass_before : (w : World) → w.scope.state ≡ before → IsSound w → Passes w
  unfolding sweep sweep_from begin_sweep led_on
  pass_before w e v =
      let (off, full) = phase_at w before e v in
      (
        (record w.scope { state = during; x_out = 0 }, begin_sweep ++ led_on ld3),
        ap (λ st. sweep_from b landscape font w.regs w.captured st w.scope) e,
        record {
          phase = (refl, omega arith, omega arith);
          columns = v.columns;
          buffer = v.buffer;
          conversions = v.conversions;
          rows = v.rows;
          plotted = λ i hi. absurd (omega arith);
          timebase_in_table = v.timebase_in_table;
          siggen_in_table = v.siggen_in_table;
        },
      )

  pass_after : (w : World) → w.scope.state ≡ after → IsSound w → Passes w
  unfolding sweep sweep_from
  pass_after w e v =
      let (actions, returns, off, reset, _) =
        sweep_after-ok b font size w.regs w.captured w.scope in
      (
        (record w.scope { state = before }, actions),
        ap (λ st. sweep_from b landscape font w.regs w.captured st w.scope) e ∙ returns,
        record {
          phase = (off w.regs, reset w.regs);
          columns = v.columns;
          buffer = v.buffer;
          conversions = v.conversions;
          rows = v.rows;
          plotted = v.plotted;
          timebase_in_table = v.timebase_in_table;
          siggen_in_table = v.siggen_in_table;
        },
      )

  pass_waits :
      (w : World)
      → w.scope.state ≡ during
      → IsSound w
      → 160 - w.regs dma1_cndtr1 ≤ w.scope.x_out
      → Passes w
  unfolding sweep sweep_from
  pass_waits w e v h =
      let (on, inside, behind) = phase_at w during e v in
      (
        (w.scope, []),
        ap (λ st. sweep_from b landscape font w.regs w.captured st w.scope) e
            ∙ sweep_during-waits b w.regs w.captured w.scope (omega arith) h,
        v,
      )

  -- A pass while a transferred sample is not plotted yet plots one.
  pub sweep-plots :
      (w : World)
      → w.scope.state ≡ during
      → IsSound w
      → w.scope.x_out < 160 - w.regs dma1_cndtr1
      → sweep b landscape font w.regs w.captured w.scope ≡ ok (plotted_out w)
  unfolding sweep sweep_from
  sweep-plots w e v h =
      let (on, inside, behind) = phase_at w during e v in
      ap (λ st. sweep_from b landscape font w.regs w.captured st w.scope) e
      ∙ sweep_during-plots b w.regs w.captured w.scope (omega arith) v.columns v.buffer h
          (next_conversion w v inside)

  pass_plots :
      (w : World)
      → w.scope.state ≡ during
      → IsSound w
      → w.scope.x_out < 160 - w.regs dma1_cndtr1
      → Passes w
  pass_plots w e v h =
      let (on, inside, behind) = phase_at w during e v in
      let x = w.scope.x_out in
      let row = plotted_row (get_or w.captured x 0) in
      (
        plotted_out w,
        sweep-plots w e v h,
        record {
          phase =
              rw
                (drawn-IsSilent x (get_or w.scope.previous_y x 0) row
                  (plotted_color (get_or w.captured x 0)) w.regs)
                (advance w.scope.state (w.regs dma1_ccr1_en) (w.regs dma1_cndtr1) x e
                  (on, inside, behind) h);
          columns = length-set w.scope.previous_y x row ∙ v.columns;
          buffer = v.buffer;
          conversions = v.conversions;
          rows =
              All-set IsRow w.scope.previous_y x row v.rows
                (inl (plotted_row-shift (get_or w.captured x 0) (next_conversion w v inside)).0);
          plotted = plotted-set w.scope.previous_y w.captured x v.columns inside v.plotted;
          timebase_in_table = v.timebase_in_table;
          siggen_in_table = v.siggen_in_table;
        },
      )

  -- In a sound world a pass through the match returns, in both builds, and leads to a sound world.
  pub sweep-Passes : (w : World) → IsSound w → Passes w
  sweep-Passes w v = by_state w.scope.state refl
    where
      by_state : (st : SweepState) → w.scope.state ≡ st → Passes w
      by_state before e = pass_before w e v
      by_state after e = pass_after w e v
      by_state during e = elim (Bool-cases (ltb w.scope.x_out (160 - w.regs dma1_cndtr1))) [
        | inl more ↦ pass_plots w e v (ltb→lt w.scope.x_out (160 - w.regs dma1_cndtr1) more)
        | inr none_left ↦
            pass_waits w e v (ltb→le w.scope.x_out (160 - w.regs dma1_cndtr1) none_left)
      ]

  -- What a pass leaves of the indices of the settings.
  abbrev pub Settled : World → Type 0
  Settled w =
      (out : Scope × List Action) × (sweep b landscape font w.regs w.captured w.scope ≡ ok out)
      × (out.0.timebase_index ≡ w.scope.timebase_index)
      × (out.0.siggen_freq_index ≡ w.scope.siggen_freq_index)

  pub sweep-Settled : (w : World) → IsSound w → Settled w
  unfolding sweep sweep_from
  sweep-Settled w v = by_state w.scope.state refl
    where
      by_state : (st : SweepState) → w.scope.state ≡ st → Settled w
      by_state before e = (
        (record w.scope { state = during; x_out = 0 }, begin_sweep ++ led_on ld3),
        ap (λ st. sweep_from b landscape font w.regs w.captured st w.scope) e,
        refl,
        refl,
      )
      by_state after e =
          let (actions, returns, _, _, _) = sweep_after-ok b font size w.regs w.captured w.scope in
          (
            (record w.scope { state = before }, actions),
            ap (λ st. sweep_from b landscape font w.regs w.captured st w.scope) e ∙ returns,
            refl,
            refl,
          )
      by_state during e = elim (Bool-cases (ltb w.scope.x_out (160 - w.regs dma1_cndtr1))) [
        | inl more ↦ (
          plotted_out w,
          sweep-plots w e v (ltb→lt w.scope.x_out (160 - w.regs dma1_cndtr1) more),
          refl,
          refl,
        )
        | inr none_left ↦ (
          (w.scope, []),
          ap (λ st. sweep_from b landscape font w.regs w.captured st w.scope) e
              ∙ sweep_during-waits b w.regs w.captured w.scope
                  (omega (arith, phase_at w during e v))
                  (ltb→le w.scope.x_out (160 - w.regs dma1_cndtr1) none_left),
          refl,
          refl,
        )
      ]
