-- ===== src/Program/Round.antt =====
-- One round of the main loop as a path of the program's events.
use stm32f3_oscilloscope.Prelude.{ℕ, ◌≡◌, refl, sym, ap, subst, ◌∙◌, List, [], ◌∷◌, ◌++◌, length}
use stm32f3_oscilloscope.Prelude.Word.{Build, ok, >>=-of_ok}
use stm32f3_oscilloscope.Device.{Action}
use stm32f3_oscilloscope.Device.Safety.{run-append}
use stm32f3_oscilloscope.Lcd.{Panel, landscape}
use stm32f3_oscilloscope.Interrupts.{Shared, ticks}
use stm32f3_oscilloscope.Sweep.{Scope}
use stm32f3_oscilloscope.Controls.{Gaps, iterate}
use stm32f3_oscilloscope.Screen.{Screen, Driver, show}
use stm32f3_oscilloscope.Screen.Stream.{show-append}
use stm32f3_oscilloscope.Screen.Panel.{panel, dark_screen}
use stm32f3_oscilloscope.World.{World, after_actions}
use stm32f3_oscilloscope.World.Pass.{sweep-Passes}
use stm32f3_oscilloscope.Program.{Machine, Run}
use stm32f3_oscilloscope.Program.Invariant.{IsRunning, Run-IsRunning, first_check, second_check}
use stm32f3_oscilloscope.Program.Watch.{
  View, seen, swept, checked_1, checked_4, tick, Watched, here, next, Watched-Run,
}

-- Ticks between two parts of a round.
abbrev ticked : List ℕ → View → View
ticked gap v = record v { machine = record v.machine { shared = ticks gap v.machine.shared } }

module _ (d : Driver) where
  ticks-Watched :
      (b : Build) (p : Panel) (font : List ℕ) (gap : List ℕ) (u v : View)
      → Watched d b p font u v
      → Watched d b p font u (ticked gap v)
  unfolding ticks
  ticks-Watched b p font [] u v path = path
  ticks-Watched b p font (idr ∷ gap) u v path =
      ticks-Watched b p font gap u (ticked (idr ∷ []) v) (next path (tick idr))

  after_twice :
      (w : World) (first second : Scope × List Action)
      → after_actions (after_actions w first) second
        ≡ after_actions w (second.0, first.1 ++ second.1)
  after_twice w first second =
      ap (λ r. record w { regs = r; scope = second.0 }) (sym (run-append first.1 second.1 w.regs))

  seen_twice :
      (v : View) (shared shared' : Shared) (first second : Scope × List Action)
      → seen d (seen d v shared first) shared' second
        ≡ seen d v shared' (second.0, first.1 ++ second.1)
  seen_twice v shared shared' first second =
      ap
        (λ (w : World). record {
          machine = record { shared = shared'; world = w };
          screen = show d second.1 (show d first.1 v.screen);
        })
        (after_twice v.machine.world first second)
      ∙ ap
          (λ (s : Screen). record {
            machine = record {
              shared = shared';
              world = after_actions v.machine.world (second.0, first.1 ++ second.1);
            };
            screen = s;
          })
          (sym (show-append d first.1 second.1 v.screen))

module _ (d : Driver) (b : Build) (font : List ℕ) (size : length font ≡ 1536) where
  IsRunning-after :
      (u v : View) → Watched d b landscape font u v → IsRunning u.machine → IsRunning v.machine
  IsRunning-after u v path =
      Run-IsRunning b font size u.machine v.machine (Watched-Run d b landscape font u v path)

  -- From a sound world with four buttons, with a font of 1,536 bytes and any ticks in between, a
  -- round of the main loop returns in both builds, and what it does to the registers, to the
  -- variables of `main` and of the SysTick handler and to the display is a path of the program's
  -- events, after which the world is sound and has four buttons again.
  iterate-Watched :
      (v : View) (g : Gaps)
      → IsRunning v.machine
      → (shared : Shared) × (out : Scope × List Action) × (iterate b landscape font g
            v.machine.world.regs v.machine.world.captured v.machine.shared v.machine.world.scope
          ≡ ok (shared, out.0, out.1))
        × IsRunning (seen d v shared out).machine
        × Watched d b landscape font v (seen d v shared out)
  unfolding iterate
  iterate-Watched v g h =
      let m = v.machine in
      let (plotted, returns, sound) = sweep-Passes b font size m.world h.sound in
      let v₁ : View = seen d v m.shared plotted in
      let now : View = ticked g.in_sweep v₁ in
      let path₁ =
        ticks-Watched d b landscape font g.in_sweep v v₁ (next here (swept plotted returns)) in
      let (shared₂, timed, checks, h₂) =
        first_check b font size now.machine g.first g.first' (IsRunning-after v now path₁ h) in
      let v₂ : View = seen d now shared₂ timed in
      let now₂ : View = ticked g.between v₂ in
      let path₂ =
        ticks-Watched d b landscape font g.between v v₂
          (next path₁ (checked_1 g.first g.first' shared₂ timed checks)) in
      let (shared₃, tuned, checks', h₃) =
        second_check b font size now₂.machine g.second g.second' (IsRunning-after v now₂ path₂ h) in
      let same =
        seen_twice d v₁ shared₂ shared₃ timed tuned
        ∙ seen_twice d v m.shared shared₃ plotted (tuned.0, timed.1 ++ tuned.1) in
      let path₃ = next path₂ (checked_4 g.second g.second' shared₃ tuned checks') in
      (
        shared₃,
        (tuned.0, plotted.1 ++ (timed.1 ++ tuned.1)),
        >>=-of_ok _ returns (>>=-of_ok _ checks (>>=-of_ok _ checks' refl)),
        subst (λ (u : View). IsRunning u.machine) same h₃,
        subst (λ (u : View). Watched d b landscape font v u) same path₃,
      )

-- The same without the display.
iterate-Run :
    (b : Build) (font : List ℕ) (m : Machine) (g : Gaps)
    → length font ≡ 1536
    → IsRunning m
    → (shared : Shared) × (out : Scope × List Action) × (iterate b landscape font g m.world.regs
          m.world.captured m.shared m.world.scope
        ≡ ok (shared, out.0, out.1))
      × IsRunning (record { shared = shared; world = after_actions m.world out })
      × Run b landscape font m (record { shared = shared; world = after_actions m.world out })
iterate-Run b font m g size h =
    let first : View = record { machine = m; screen = dark_screen } in
    let (shared, out, returns, running, path) = iterate-Watched panel b font size first g h in
    (shared, out, returns, running, Watched-Run panel b landscape font first _ path)
