-- ===== src/Controls.antt =====
-- The pushbuttons in the main loop of main.rs: button 1 changes the timebase, button 4 the
-- frequency of the signal generator.
pub mod Presses
pub mod Marks
pub mod Response
mod Tests
use stm32f3_oscilloscope.Prelude.{
  ℕ, ◌+◌, ◌%◌, ◌≡◌, Bool, List, [], ◌∷◌, ◌++◌, length, if◌then◌else◌,
}
use stm32f3_oscilloscope.Prelude.Word.{Build, Result, ok, ◌>>=◌}
use stm32f3_oscilloscope.Device.{Action, Registers, run}
use stm32f3_oscilloscope.Lcd.{Panel}
use stm32f3_oscilloscope.Settings.{
  siggen_frequencies, timebase_intervals, set_siggen_freq_from_index,
  set_capture_timebase_from_index,
}
use stm32f3_oscilloscope.Interrupts.{
  Shared, button_get_changed, button_reset_changed, button_get_state, ticks,
}
use stm32f3_oscilloscope.Sweep.{Scope, sweep}

module _ (b : Build) (p : Panel) (font : List ℕ) where
  unfoldable pub next_timebase : Scope → Result (Scope × List Action)
  next_timebase s = do
    let i = (s.timebase_index + 1) % length timebase_intervals
    actions ← set_capture_timebase_from_index b p font i
    ok (record s { timebase_index = i }, actions)

  unfoldable pub next_siggen_freq : Scope → Result (Scope × List Action)
  next_siggen_freq s = do
    let i = (s.siggen_freq_index + 1) % length siggen_frequencies
    actions ← set_siggen_freq_from_index b p font i
    ok (record s { siggen_freq_index = i }, actions)

-- The handling of button `i` with its action. The ticks of `gap` interrupt between the read of the
-- mark and its reset, and those of `gap'` between the reset and the read of the state.
unfoldable pub check_button :
    ℕ
    → List ℕ
    → List ℕ
    → (Scope → Result (Scope × List Action))
    → Shared
    → Scope
    → Result (Shared × Scope × List Action)
check_button i gap gap' act shared s = do
  changed ← button_get_changed i shared
  if changed
      then (do
        reset ← button_reset_changed i (ticks gap shared)
        let late = ticks gap' reset
        state ← button_get_state i late
        if state then (do (s', actions) ← act s; ok (late, s', actions)) else ok (late, s, []))
      else ok (shared, s, [])

-- The ticks that interrupt one round of the main loop, and where.
pub record Gaps : Type 0 where
  pub in_sweep : List ℕ
  pub first : List ℕ
  pub first' : List ℕ
  pub between : List ℕ
  pub second : List ℕ
  pub second' : List ℕ

-- One round of the main loop: the sweep, and the two buttons.
unfoldable pub iterate :
    Build
    → Panel
    → List ℕ
    → Gaps
    → Registers
    → List ℕ
    → Shared
    → Scope
    → Result (Shared × Scope × List Action)
iterate b p font g r captured shared s = do
  (s, swept) ← sweep b p font r captured s
  (shared, s, timed) ←
      check_button 0 g.first g.first' (next_timebase b p font) (ticks g.in_sweep shared) s
  (shared, s, tuned) ←
      check_button 3 g.second g.second' (next_siggen_freq b p font) (ticks g.between shared) s
  ok (shared, s, swept ++ (timed ++ tuned))
