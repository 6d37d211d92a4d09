-- ===== src/World/Picture/Invariant.antt =====
-- The trace on the display in every state that the main loop reaches.
use stm32f3_oscilloscope.Prelude.{
  ℕ, ◌-◌, ◌<◌, ◌≡◌, false, refl, ap, subst, ◌∙◌, ◌⊎◌, inl, inr, List, [], ◌++◌, length, get_or,
  All-get_or, ltb, ltb→lt, ltb→le, Bool-cases, arith,
}
use stm32f3_oscilloscope.Prelude.Word.{Build, ok}
use stm32f3_oscilloscope.Device.{Action, dma1_cndtr1}
use stm32f3_oscilloscope.Led.{ld3, led_on}
use stm32f3_oscilloscope.Capture.{begin_sweep}
use stm32f3_oscilloscope.Lcd.{landscape}
use stm32f3_oscilloscope.Sweep.{SweepState, before, during, after, Scope, sweep, sweep_from}
use stm32f3_oscilloscope.Sweep.Plot.{
  plotted_row, plotted_color, plotted_row-shift, sweep_during-waits,
}
use stm32f3_oscilloscope.Screen.{Driver}
use stm32f3_oscilloscope.Screen.Marginal.{IsMarginal, quiet-IsMarginal, nothing-IsMarginal}
use stm32f3_oscilloscope.Screen.Controller.Order.{IsOrderly}
use stm32f3_oscilloscope.Screen.Controller.Drawing.{plot-IsOrderly}
use stm32f3_oscilloscope.World.{World}
use stm32f3_oscilloscope.World as Steps
use stm32f3_oscilloscope.World.Frame.{next_timebase-ok, next_siggen_freq-ok, sweep_after-ok}
use stm32f3_oscilloscope.World.Sound.{IsRow, IsSound, phase_at, plotted_out, next_conversion}
use stm32f3_oscilloscope.World.Pass.{sweep-plots}
use stm32f3_oscilloscope.World.Invariant.{ok_unique, Step-IsSound}
use stm32f3_oscilloscope.World.Picture.{
  Picture, after_drawing, Draw, pass, timebase, siggen, hardware, Draws, here, next, IsTraced,
}
use stm32f3_oscilloscope.World.Picture.Plotting.{IsAside-IsTraced, plotted_code, plot-IsTraced}

module _ (b : Build) (font : List ℕ) (size : length font ≡ 1536) where
  -- What a pass draws: nothing on the trace, or one column of it.
  abbrev PassDraws : World → Type 0
  PassDraws w =
      (out : Scope × List Action) × (sweep b landscape font w.regs w.captured w.scope ≡ ok out)
      × (((out.0.previous_y ≡ w.scope.previous_y) × IsMarginal out.1)
          ⊎ ((out ≡ plotted_out w) × (w.scope.x_out < 160)))

  sweep-draws : (w : World) → IsSound w → PassDraws w
  unfolding sweep sweep_from begin_sweep led_on
  sweep-draws w v = by_state w.scope.state refl
    where
      by_state : (st : SweepState) → w.scope.state ≡ st → PassDraws w
      by_state before e = (
        (record w.scope { state = during; x_out = 0 }, begin_sweep ++ led_on ld3),
        ap (λ st. sweep_from b landscape font w.regs w.captured st w.scope) e,
        inl (refl, quiet-IsMarginal (begin_sweep ++ led_on ld3) (λ d s. refl) tt),
      )
      by_state after e =
          let (actions, returns, _, _, aside) =
            sweep_after-ok b font size w.regs w.captured w.scope in
          (
            (record w.scope { state = before }, actions),
            ap (λ st. sweep_from b landscape font w.regs w.captured st w.scope) e ∙ returns,
            inl (refl, aside),
          )
      by_state during e =
          let (on, inside, behind) = phase_at w during e v in
          elim (Bool-cases (ltb w.scope.x_out (160 - w.regs dma1_cndtr1))) [
            | inl more ↦ (
              plotted_out w,
              sweep-plots b font size w e v (ltb→lt w.scope.x_out (160 - w.regs dma1_cndtr1) more),
              inr (refl, inside),
            )
            | inr none_left ↦ (
              (w.scope, []),
              ap (λ st. sweep_from b landscape font w.regs w.captured st w.scope) e
                  ∙ sweep_during-waits b w.regs w.captured w.scope (omega arith)
                      (ltb→le w.scope.x_out (160 - w.regs dma1_cndtr1) none_left),
              inl (refl, nothing-IsMarginal),
            )
          ]

  -- A pass sends pixels to an open window only.
  pub sweep-IsOrderly :
      (w : World) (out : Scope × List Action)
      → IsSound w
      → sweep b landscape font w.regs w.captured w.scope ≡ ok out
      → IsOrderly false out.1
  sweep-IsOrderly w out v e =
      let (out', returns, cases) = sweep-draws w v in
      let x = w.scope.x_out in
      let raw = get_or w.captured x 0 in
      subst (λ (out : Scope × List Action). IsOrderly false out.1) (ok_unique _ out' out returns e)
        (elim cases [
          | inl (same, aside) ↦ aside.orderly
          | inr (plotted, inside) ↦ rw plotted (
              plot-IsOrderly x (get_or w.scope.previous_y x 0) (plotted_row raw)
                (plotted_color raw))
        ])

module _ (d : Driver) (b : Build) (font : List ℕ) (size : length font ≡ 1536) where
  -- What holds of the world and the display together.
  pub record IsPictured (v : Picture) : Type 0 where
    pub sound : IsSound v.world
    pub traced : IsTraced v.world.scope.previous_y v.screen

  pass-IsTraced :
      (v : Picture) (out : Scope × List Action)
      → sweep b landscape font v.world.regs v.world.captured v.world.scope ≡ ok out
      → IsPictured v
      → IsTraced out.0.previous_y (after_drawing d v out).screen
  pass-IsTraced v out e h =
      let w = v.world in
      let x = w.scope.x_out in
      let raw = get_or w.captured x 0 in
      let (out', returns, cases) = sweep-draws b font size w h.sound in
      subst (λ out. IsTraced out.0.previous_y (after_drawing d v out).screen)
        (ok_unique _ out' out returns e)
        (elim cases [
          | inl (same, aside) ↦
              rw same
                (IsAside-IsTraced d out'.1 w.scope.previous_y v.screen (aside.aside d) h.traced)
          | inr (plotted, inside) ↦
              let small = next_conversion w h.sound inside in
              rw plotted (
                plot-IsTraced d v.screen x inside w.scope.previous_y h.sound.columns
                  (plotted_row raw) (plotted_color raw)
                  (let on_panel = (plotted_row-shift raw small).0 in omega arith)
                  (All-get_or IsRow w.scope.previous_y x 0 h.sound.rows
                    (omega (arith, h.sound.columns)))
                  h.traced (plotted_code d v.screen x inside raw))
        ])

  Draw-IsPictured : (v v' : Picture) → Draw d b landscape font v v' → IsPictured v → IsPictured v'
  Draw-IsPictured v _ (pass out e) h = record {
    sound = Step-IsSound b font size v.world _ (Steps.pass out e) h.sound;
    traced = pass-IsTraced v out e h;
  }
  Draw-IsPictured v _ (timebase out e) h =
      let (actions, e', _, aside) = next_timebase-ok b font size v.world.scope in
      record {
        sound = Step-IsSound b font size v.world _ (Steps.timebase out e) h.sound;
        traced =
            subst (λ out. IsTraced out.0.previous_y (after_drawing d v out).screen)
              (ok_unique _ _ out e' e)
              (IsAside-IsTraced d actions v.world.scope.previous_y v.screen (aside.aside d)
                h.traced);
      }
  Draw-IsPictured v _ (siggen out e) h =
      let (actions, e', _, aside) = next_siggen_freq-ok b font size v.world.scope in
      record {
        sound = Step-IsSound b font size v.world _ (Steps.siggen out e) h.sound;
        traced =
            subst (λ out. IsTraced out.0.previous_y (after_drawing d v out).screen)
              (ok_unique _ _ out e' e)
              (IsAside-IsTraced d actions v.world.scope.previous_y v.screen (aside.aside d)
                h.traced);
      }
  Draw-IsPictured v _ (hardware change) h =
      let step = Step-IsSound b font size v.world _ (Steps.hardware change) h.sound in
      record { sound = step; traced = hardware-IsTraced change h.traced }
    where
      hardware-IsTraced :
          {w w' : World}
          → Steps.Hardware w w'
          → IsTraced w.scope.previous_y v.screen
          → IsTraced w'.scope.previous_y v.screen
      hardware-IsTraced (Steps.transfer conversion on more small) t = t
      hardware-IsTraced (Steps.other r enable counter) t = t

  pub Draws-IsPictured :
      (v v' : Picture) → Draws d b landscape font v v' → IsPictured v → IsPictured v'
  Draws-IsPictured v _ here h = h
  Draws-IsPictured v _ (next path step) h = Draw-IsPictured _ _ step (Draws-IsPictured v _ path h)
