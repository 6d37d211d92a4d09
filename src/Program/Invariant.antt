-- ===== src/Program/Invariant.antt =====
-- What holds of the whole program in every state that it reaches.
use stm32f3_oscilloscope.Prelude.{
  ℕ, ◌<◌, ◌≡◌, refl, subst, ◌∙◌, inl, inr, List, [], ◌∷◌, length, arith,
}
use stm32f3_oscilloscope.Prelude.Word.{Build, Result, ok}
use stm32f3_oscilloscope.Device.{Action, run}
use stm32f3_oscilloscope.Led.{led_off}
use stm32f3_oscilloscope.Lcd.{landscape}
use stm32f3_oscilloscope.Interrupts.{Shared, dma1ch1_interrupt_handler, ticks}
use stm32f3_oscilloscope.Sweep.{Scope}
use stm32f3_oscilloscope.Controls.{check_button, next_timebase, next_siggen_freq}
use stm32f3_oscilloscope.Controls.Marks.{check_button-Acts, ticks-length}
use stm32f3_oscilloscope.World.{after_actions, other, timebase, siggen}
use stm32f3_oscilloscope.World.Frame.{Keeps, next_timebase-ok, next_siggen_freq-ok}
use stm32f3_oscilloscope.World.Sound.{IsSound}
use stm32f3_oscilloscope.World.Invariant.{ok_unique, Hardware-IsSound, Step-IsSound, pass-IsSound}
use stm32f3_oscilloscope.Program.{
  Machine, Event, swept, checked_1, checked_4, tick, capture_done, hardware, Run, here as start,
  next as later,
}

-- The handler leaves the capture's channel alone.
pub handler-Keeps : Keeps dma1ch1_interrupt_handler
unfolding dma1ch1_interrupt_handler led_off
handler-Keeps = record { enable = λ r. refl; counter = λ r. refl; timing = λ r. refl }

pub record IsRunning (m : Machine) : Type 0 where
  pub sound : IsSound m.world
  pub four : length m.shared.buttons ≡ 4

-- A check whose action keeps the world sound.
module _ (i : ℕ) (act : Scope → Result (Scope × List Action)) (m : Machine)
    (out : Scope × List Action) (acts : act m.world.scope ≡ ok out) (inside : i < 4)
    (keeps : (out : Scope × List Action)
      → act m.world.scope ≡ ok out
      → IsSound (after_actions m.world out))
    (v : IsRunning m) where
  -- The check returns, and leaves the program running.
  pub check_button-IsRunning :
      (gap gap' : List ℕ)
      → (shared : Shared) × (out' : Scope × List Action) × (check_button i gap gap' act m.shared
            m.world.scope
          ≡ ok (shared, out'.0, out'.1))
        × IsRunning (record { shared = shared; world = after_actions m.world out' })
  check_button-IsRunning gap gap' =
      let (shared, out', returns, same, done) =
        check_button-Acts act m.world.scope i gap gap' m.shared out (omega (arith, v.four)) acts in
      (
        shared,
        out',
        returns,
        record {
          sound = elim done [ inl e ↦ rw e v.sound | inr e ↦ keeps out' e ];
          four = same ∙ v.four;
        },
      )

  checked-IsRunning :
      (gap gap' : List ℕ) (shared : Shared) (out' : Scope × List Action)
      → check_button i gap gap' act m.shared m.world.scope ≡ ok (shared, out'.0, out'.1)
      → IsRunning (record { shared = shared; world = after_actions m.world out' })
  checked-IsRunning gap gap' shared out' e =
      let (shared₁, out₁, e₁, running) = check_button-IsRunning gap gap' in
      subst
        (λ (end : Shared × Scope × List Action).
          IsRunning (record { shared = end.0; world = after_actions m.world (end.1, end.2) }))
        (ok_unique _ (shared₁, out₁.0, out₁.1) (shared, out'.0, out'.1) e₁ e) running

module _ (b : Build) (font : List ℕ) (size : length font ≡ 1536) where
  -- The two checks of a round.
  pub first_check :
      (m : Machine) (gap gap' : List ℕ)
      → IsRunning m
      → (shared : Shared) × (out : Scope × List Action) × (check_button 0 gap gap'
            (next_timebase b landscape font)
            m.shared
            m.world.scope
          ≡ ok (shared, out.0, out.1))
        × IsRunning (record { shared = shared; world = after_actions m.world out })
  first_check m gap gap' v =
      let (_, sets, _, _) = next_timebase-ok b font size m.world.scope in
      check_button-IsRunning 0 (next_timebase b landscape font) m _ sets (omega arith)
        (λ out e. Step-IsSound b font size m.world _ (timebase out e) v.sound) v gap gap'

  pub second_check :
      (m : Machine) (gap gap' : List ℕ)
      → IsRunning m
      → (shared : Shared) × (out : Scope × List Action) × (check_button 3 gap gap'
            (next_siggen_freq b landscape font)
            m.shared
            m.world.scope
          ≡ ok (shared, out.0, out.1))
        × IsRunning (record { shared = shared; world = after_actions m.world out })
  second_check m gap gap' v =
      let (_, sets, _, _) = next_siggen_freq-ok b font size m.world.scope in
      check_button-IsRunning 3 (next_siggen_freq b landscape font) m _ sets (omega arith)
        (λ out e. Step-IsSound b font size m.world _ (siggen out e) v.sound) v gap gap'

  pub Event-IsRunning : (m m' : Machine) → Event b landscape font m m' → IsRunning m → IsRunning m'
  unfolding ticks
  Event-IsRunning m _ (swept out e) v = record {
    sound = pass-IsSound b font size m.world out e v.sound;
    four = v.four;
  }
  Event-IsRunning m _ (checked_1 gap gap' shared out e) v =
      let (_, sets, _, _) = next_timebase-ok b font size m.world.scope in
      checked-IsRunning 0 (next_timebase b landscape font) m _ sets (omega arith)
        (λ out e. Step-IsSound b font size m.world _ (timebase out e) v.sound) v gap gap' shared out
        e
  Event-IsRunning m _ (checked_4 gap gap' shared out e) v =
      let (_, sets, _, _) = next_siggen_freq-ok b font size m.world.scope in
      checked-IsRunning 3 (next_siggen_freq b landscape font) m _ sets (omega arith)
        (λ out e. Step-IsSound b font size m.world _ (siggen out e) v.sound) v gap gap' shared out e
  Event-IsRunning m _ (tick idr) v = record {
    sound = v.sound;
    four = ticks-length (idr ∷ []) m.shared ∙ v.four;
  }
  Event-IsRunning m _ capture_done v =
      let r = m.world.regs in
      record {
        sound =
            Hardware-IsSound m.world _
              (other (run dma1ch1_interrupt_handler r) (handler-Keeps.enable r)
                (handler-Keeps.counter r))
              v.sound;
        four = v.four;
      }
  Event-IsRunning m _ (hardware change) v = record {
    sound = Hardware-IsSound m.world _ change v.sound;
    four = v.four;
  }

  pub Run-IsRunning : (m m' : Machine) → Run b landscape font m m' → IsRunning m → IsRunning m'
  Run-IsRunning m _ start v = v
  Run-IsRunning m _ (later path event) v = Event-IsRunning _ _ event (Run-IsRunning m _ path v)
