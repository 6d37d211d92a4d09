-- ===== src/World/Invariant.antt =====
-- What holds of the sweep in every reachable state.
use stm32f3_oscilloscope.Prelude.{
  ℕ, ◌-◌, ◌^◌, ◌<◌, ◌≡◌, refl, sym, ap, subst, ◌∙◌, List, length, set, All-set, length-set,
  get_or-set_ne, arith,
}
use stm32f3_oscilloscope.Prelude.Word.{Build, ok, panic, Result}
use stm32f3_oscilloscope.Device.{Action, Registers, run, store, dma1_ccr1_en, dma1_cndtr1}
use stm32f3_oscilloscope.Lcd.{landscape}
use stm32f3_oscilloscope.Sweep.{SweepState, before, during, after, Scope, sweep}
use stm32f3_oscilloscope.Sweep.Plot.{plotted_row}
use stm32f3_oscilloscope.Controls.{next_timebase, next_siggen_freq}
use stm32f3_oscilloscope.World.{
  World, after_actions, Hardware, transfer, other, Step, pass, timebase, siggen, hardware, Reach,
  here, next,
}
use stm32f3_oscilloscope.World.Frame.{next_timebase-ok, next_siggen_freq-ok}
use stm32f3_oscilloscope.World.Sound.{Phase, IsSound, phase_at}
use stm32f3_oscilloscope.World.Pass.{sweep-Passes}

-- The value of a result, for comparing two runs.
value_or {ℓ} : {A : Type ℓ} → A → Result A → A
value_or d (ok a) = a
value_or d panic = d

pub ok_unique {ℓ} : {A : Type ℓ} (m : Result A) (a a' : A) → m ≡ ok a → m ≡ ok a' → a ≡ a'
unfolding value_or
ok_unique m a a' h h' = ap (value_or a) (sym h ∙ h')

-- A conversion is stored behind the columns that are plotted.
transfer-IsSound :
    (w : World) (conversion : ℕ)
    → w.regs dma1_ccr1_en ≡ 1
    → 0 < w.regs dma1_cndtr1
    → conversion < 2 ^ 12
    → IsSound w
    → IsSound (record w {
      regs = store dma1_cndtr1 (w.regs dma1_cndtr1 - 1) w.regs;
      captured = set w.captured (160 - w.regs dma1_cndtr1) conversion;
    })
transfer-IsSound w conversion on more small v = by_state w.scope.state refl
  where
    left : ℕ
    left = w.regs dma1_cndtr1

    by_state :
        (st : SweepState)
        → w.scope.state ≡ st
        → IsSound (record w {
          regs = store dma1_cndtr1 (w.regs dma1_cndtr1 - 1) w.regs;
          captured = set w.captured (160 - w.regs dma1_cndtr1) conversion;
        })
    by_state before e = let (off, full) = phase_at w before e v in absurd (omega arith)
    by_state after e = let (on', empty, last) = phase_at w after e v in absurd (omega arith)
    by_state during e =
        let (on', inside, behind) = phase_at w during e v in
        record {
          phase =
              subst (λ st. Phase st (w.regs dma1_ccr1_en) (w.regs dma1_cndtr1 - 1) w.scope.x_out)
                (sym e) (on, inside, omega arith);
          columns = v.columns;
          buffer = length-set w.captured (160 - w.regs dma1_cndtr1) conversion ∙ v.buffer;
          conversions =
              All-set (λ raw. raw < 2 ^ 12) w.captured (160 - w.regs dma1_cndtr1) conversion
                v.conversions small;
          rows = v.rows;
          plotted = λ i hi h.
              v.plotted i hi h
              ∙ ap plotted_row (
                  sym (
                    get_or-set_ne w.captured (160 - w.regs dma1_cndtr1) i conversion 0
                      (λ same. omega (arith, same))));
          timebase_in_table = v.timebase_in_table;
          siggen_in_table = v.siggen_in_table;
        }

-- A change of the registers that leaves the channel alone.
other-IsSound :
    (w : World) (r : Registers)
    → r dma1_ccr1_en ≡ w.regs dma1_ccr1_en
    → r dma1_cndtr1 ≡ w.regs dma1_cndtr1
    → IsSound w
    → IsSound (record w { regs = r })
other-IsSound w r enable counter v = record {
  phase = rw enable (rw counter v.phase);
  columns = v.columns;
  buffer = v.buffer;
  conversions = v.conversions;
  rows = v.rows;
  plotted = v.plotted;
  timebase_in_table = v.timebase_in_table;
  siggen_in_table = v.siggen_in_table;
}

pub Hardware-IsSound : (w w' : World) → Hardware w w' → IsSound w → IsSound w'
Hardware-IsSound w _ (transfer conversion on more small) v =
    transfer-IsSound w conversion on more small v
Hardware-IsSound w _ (other r enable counter) v = other-IsSound w r enable counter v

module _ (b : Build) (font : List ℕ) (size : length font ≡ 1536) where
  pub pass-IsSound :
      (w : World) (out : Scope × List Action)
      → sweep b landscape font w.regs w.captured w.scope ≡ ok out
      → IsSound w
      → IsSound (after_actions w out)
  pass-IsSound w out e v =
      let (out', e', sound) = sweep-Passes b font size w v in
      subst (λ out. IsSound (after_actions w out)) (ok_unique _ out' out e' e) sound

  timebase-IsSound :
      (w : World) (out : Scope × List Action)
      → next_timebase b landscape font w.scope ≡ ok out
      → IsSound w
      → IsSound (after_actions w out)
  timebase-IsSound w out e v =
      let (actions, e', keeps, _) = next_timebase-ok b font size w.scope in
      let sound =
        other-IsSound w (run actions w.regs) (keeps.enable w.regs) (keeps.counter w.regs) v in
      subst (λ out. IsSound (after_actions w out)) (ok_unique _ _ out e' e)
        (record {
          phase = sound.phase;
          columns = v.columns;
          buffer = v.buffer;
          conversions = v.conversions;
          rows = v.rows;
          plotted = v.plotted;
          timebase_in_table = omega arith;
          siggen_in_table = v.siggen_in_table;
        })

  siggen-IsSound :
      (w : World) (out : Scope × List Action)
      → next_siggen_freq b landscape font w.scope ≡ ok out
      → IsSound w
      → IsSound (after_actions w out)
  siggen-IsSound w out e v =
      let (actions, e', keeps, _) = next_siggen_freq-ok b font size w.scope in
      let sound =
        other-IsSound w (run actions w.regs) (keeps.enable w.regs) (keeps.counter w.regs) v in
      subst (λ out. IsSound (after_actions w out)) (ok_unique _ _ out e' e)
        (record {
          phase = sound.phase;
          columns = v.columns;
          buffer = v.buffer;
          conversions = v.conversions;
          rows = v.rows;
          plotted = v.plotted;
          timebase_in_table = v.timebase_in_table;
          siggen_in_table = omega arith;
        })

  pub Step-IsSound : (w w' : World) → Step b landscape font w w' → IsSound w → IsSound w'
  Step-IsSound w _ (pass out e) v = pass-IsSound w out e v
  Step-IsSound w _ (timebase out e) v = timebase-IsSound w out e v
  Step-IsSound w _ (siggen out e) v = siggen-IsSound w out e v
  Step-IsSound w _ (hardware change) v = Hardware-IsSound w _ change v

  pub Reach-IsSound : (w w' : World) → Reach b landscape font w w' → IsSound w → IsSound w'
  Reach-IsSound w _ here v = v
  Reach-IsSound w _ (next path step) v = Step-IsSound _ _ step (Reach-IsSound w _ path v)
