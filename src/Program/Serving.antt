-- ===== src/Program/Serving.antt =====
-- Whole rounds of the main loop of main.rs with both buttons pressed.
use stm32f3_oscilloscope.Prelude.{
  ℕ, ◌+◌, ◌%◌, ◌≡◌, refl, ap, ◌∙◌, true, false, List, ◌∷◌, ◌++◌, append-nil, length, arith,
}
use stm32f3_oscilloscope.Prelude.Word.{Build, Result, ok, >>=-of_ok}
use stm32f3_oscilloscope.Device.{Action}
use stm32f3_oscilloscope.Lcd.{landscape}
use stm32f3_oscilloscope.Settings.{siggen_frequencies, timebase_intervals}
use stm32f3_oscilloscope.Interrupts.{Shared, ticks}
use stm32f3_oscilloscope.Sweep.{Scope, sweep}
use stm32f3_oscilloscope.Controls.{Gaps, iterate, next_timebase, next_siggen_freq}
use stm32f3_oscilloscope.Controls.Presses.{at_button, check_button-skips}
use stm32f3_oscilloscope.Controls.Marks.{ticks-length}
use stm32f3_oscilloscope.Controls.Response.{
  Low, ticks-held, ticks-pressed, checked, check_button-held, checked-apart,
}
use stm32f3_oscilloscope.World.{World}
use stm32f3_oscilloscope.World.Frame.{next_timebase-ok, next_siggen_freq-ok}
use stm32f3_oscilloscope.World.Sound.{IsSound}
use stm32f3_oscilloscope.World.Pass.{sweep-Passes, sweep-Settled}
use stm32f3_oscilloscope.Program.{Machine}
use stm32f3_oscilloscope.Program.Invariant.{IsRunning}

-- Button `i` is released and its debounce counter has run out.
abbrev pub IsUp : ℕ → Shared → Type 0
IsUp i shared = ((at_button shared i).state ≡ false) × ((at_button shared i).debounce ≡ 0)

-- Every tick that comes in a round reads the pin of button `i` low.
pub record StaysLow (i : ℕ) (g : Gaps) : Type 0 where
  pub in_sweep : Low i g.in_sweep
  pub first : Low i g.first
  pub first' : Low i g.first'
  pub between : Low i g.between
  pub second : Low i g.second
  pub second' : Low i g.second'

-- The four buttons, with button `i` pressed, and its mark.
abbrev Held : ℕ → Shared → Type 0
Held i shared = (length shared.buttons ≡ 4) × ((at_button shared i).state ≡ true)

-- What a round with the ticks of `g` leaves of the buttons, where both are marked.
abbrev pub served : Gaps → Shared → Shared
served g shared =
    checked 3 g.second g.second'
      (ticks g.between (checked 0 g.first g.first' (ticks g.in_sweep shared)))

module _ (b : Build) (font : List ℕ) (size : length font ≡ 1536) where
  -- With both buttons marked a round does the sweep's pass, then the change of the timebase, then
  -- that of the frequency.
  round-serves :
      (w : World) (shared : Shared) (g : Gaps)
      → IsSound w
      → length shared.buttons ≡ 4
      → StaysLow 0 g
      → StaysLow 3 g
      → ((at_button shared 0).state ≡ true) × ((at_button shared 0).changed ≡ true)
      → ((at_button shared 3).state ≡ true) × ((at_button shared 3).changed ≡ true)
      → (swept : Scope × List Action) × (timed : Scope × List Action) × (tuned : Scope
          × List Action)
        × (sweep b landscape font w.regs w.captured w.scope ≡ ok swept)
        × (next_timebase b landscape font swept.0 ≡ ok timed)
        × (next_siggen_freq b landscape font timed.0 ≡ ok tuned)
        × (iterate b landscape font g w.regs w.captured shared w.scope
            ≡ ok (served g shared, tuned.0, swept.1 ++ (timed.1 ++ tuned.1)))
        × (tuned.0.timebase_index ≡ (w.scope.timebase_index + 1) % length timebase_intervals)
        × (tuned.0.siggen_freq_index ≡ (w.scope.siggen_freq_index + 1) % length siggen_frequencies)
        × (length (served g shared).buttons ≡ 4)
        × ((at_button (served g shared) 0).state ≡ true)
        × ((at_button (served g shared) 0).changed ≡ false)
        × ((at_button (served g shared) 3).state ≡ true)
        × ((at_button (served g shared) 3).changed ≡ false)
  unfolding iterate
  round-serves w shared g sound four low₀ low₃ (state₀, mark₀) (state₃, mark₃) =
      let (swept, returns, same, same') = sweep-Settled b font size w sound in
      let (timed, sets, _, _) = next_timebase-ok b font size swept.0 in
      let timed_scope = record swept.0 { timebase_index = (swept.0.timebase_index + 1) % 17 } in
      let (tuned, tunes, _, _) = next_siggen_freq-ok b font size timed_scope in
      let s₁ = ticks g.in_sweep shared in
      let four₁ = ticks-length g.in_sweep shared ∙ four in
      let (state₀₁, mark₀₁) =
        ticks-held 0 (omega arith) g.in_sweep shared four low₀.in_sweep state₀ in
      let (state₃₁, mark₃₁) =
        ticks-held 3 (omega arith) g.in_sweep shared four low₃.in_sweep state₃ in
      let s₂ = checked 0 g.first g.first' s₁ in
      let (checks, four₂, state₀₂, mark₀₂) =
        check_button-held 0 (omega arith) (next_timebase b landscape font) swept.0 g.first g.first'
          s₁ (timed_scope, timed) four₁ low₀.first low₀.first' state₀₁ (mark₀₁ ∙ mark₀) sets in
      let (state₃₂, mark₃₂) =
        checked-apart 0 3 g.first g.first' s₁ (λ e. omega arith) (omega arith) four₁ low₃.first
          low₃.first' state₃₁ in
      let s₃ = ticks g.between s₂ in
      let four₃ = ticks-length g.between s₂ ∙ four₂ in
      let (state₀₃, mark₀₃) = ticks-held 0 (omega arith) g.between s₂ four₂ low₀.between state₀₂ in
      let (state₃₃, mark₃₃) = ticks-held 3 (omega arith) g.between s₂ four₂ low₃.between state₃₂ in
      let out : Scope × List Action = (
        record timed_scope { siggen_freq_index = (timed_scope.siggen_freq_index + 1) % 9 },
        tuned,
      ) in
      let (checks', four₄, state₃₄, mark₃₄) =
        check_button-held 3 (omega arith) (next_siggen_freq b landscape font) timed_scope g.second
          g.second' s₃ out four₃ low₃.second low₃.second' state₃₃ (mark₃₃ ∙ mark₃₂ ∙ mark₃₁ ∙ mark₃)
          tunes in
      let (state₀₄, mark₀₄) =
        checked-apart 3 0 g.second g.second' s₃ (λ e. omega arith) (omega arith) four₃ low₀.second
          low₀.second' state₀₃ in
      (
        swept,
        (timed_scope, timed),
        out,
        returns,
        sets,
        tunes,
        >>=-of_ok _ returns (>>=-of_ok _ checks (>>=-of_ok _ checks' refl)),
        ap (λ (i : ℕ). (i + 1) % 17) same,
        ap (λ (i : ℕ). (i + 1) % 9) same',
        four₄,
        state₀₄,
        mark₀₄ ∙ mark₀₃ ∙ mark₀₂,
        state₃₄,
        mark₃₄,
      )

  -- With no button marked, and both held, a round does the sweep's pass and nothing else.
  round-idles :
      (w : World) (shared : Shared) (g : Gaps)
      → IsSound w
      → length shared.buttons ≡ 4
      → StaysLow 0 g
      → StaysLow 3 g
      → ((at_button shared 0).state ≡ true) × ((at_button shared 0).changed ≡ false)
      → ((at_button shared 3).state ≡ true) × ((at_button shared 3).changed ≡ false)
      → (swept : Scope × List Action) × (sweep b landscape font w.regs w.captured w.scope
          ≡ ok swept)
        × (iterate b landscape font g w.regs w.captured shared w.scope
            ≡ ok (ticks g.between (ticks g.in_sweep shared), swept.0, swept.1))
  unfolding iterate
  round-idles w shared g sound four low₀ low₃ (state₀, mark₀) (state₃, mark₃) =
      let (swept, returns, _) = sweep-Passes b font size w sound in
      let s₁ = ticks g.in_sweep shared in
      let four₁ = ticks-length g.in_sweep shared ∙ four in
      let (_, mark₀₁) = ticks-held 0 (omega arith) g.in_sweep shared four low₀.in_sweep state₀ in
      let (state₃₁, mark₃₁) =
        ticks-held 3 (omega arith) g.in_sweep shared four low₃.in_sweep state₃ in
      let s₂ = ticks g.between s₁ in
      let (_, mark₃₂) = ticks-held 3 (omega arith) g.between s₁ four₁ low₃.between state₃₁ in
      let four₂ = ticks-length g.between s₁ ∙ four₁ in
      (
        swept,
        returns,
        >>=-of_ok _ returns (
            >>=-of_ok _
              (check_button-skips 0 (next_timebase b landscape font) g.first g.first' s₁ swept.0
                (omega (arith, four₁)) (mark₀₁ ∙ mark₀))
              (>>=-of_ok _
                (check_button-skips 3 (next_siggen_freq b landscape font) g.second g.second' s₂
                  swept.0 (omega (arith, four₂)) (mark₃₂ ∙ mark₃₁ ∙ mark₃))
                (ap (λ (actions : List Action). Result.ok (ticks g.between s₁, swept.0, actions))
                  (append-nil swept.1)))),
      )

  -- Buttons 1 and 4 are released, their debounce counters have run out, and a tick then reads both
  -- pins low. As long as every tick after it does, wherever it comes, and in both builds: the next
  -- round of the main loop returns and does the sweep's pass, then the change of the timebase, and
  -- then that of the frequency, each once and in this order. Both indices are then those of the
  -- next entries of their tables, or of the first ones behind the last. A later round, from any
  -- sound world, does the sweep's pass and nothing else.
  pub iterate-serves :
      (m : Machine) (idr : ℕ) (held : List ℕ) (g : Gaps) (later : List ℕ) (w : World) (g' : Gaps)
      → IsRunning m
      → IsUp 0 m.shared
      → IsUp 3 m.shared
      → Low 0 (idr ∷ held)
      → Low 3 (idr ∷ held)
      → StaysLow 0 g
      → StaysLow 3 g
      → Low 0 later
      → Low 3 later
      → IsSound w
      → StaysLow 0 g'
      → StaysLow 3 g'
      → let s = m.world.scope in
        let pressed = ticks (idr ∷ held) m.shared in
        (swept : Scope × List Action) × (timed : Scope × List Action) × (tuned : Scope
          × List Action)
        × (shared : Shared) × (sweep b landscape font m.world.regs m.world.captured s ≡ ok swept)
        × (next_timebase b landscape font swept.0 ≡ ok timed)
        × (next_siggen_freq b landscape font timed.0 ≡ ok tuned)
        × (iterate b landscape font g m.world.regs m.world.captured pressed s
            ≡ ok (shared, tuned.0, swept.1 ++ (timed.1 ++ tuned.1)))
        × (tuned.0.timebase_index ≡ (s.timebase_index + 1) % length timebase_intervals)
        × (tuned.0.siggen_freq_index ≡ (s.siggen_freq_index + 1) % length siggen_frequencies)
        × (swept' : Scope × List Action) × (shared' : Shared) × (sweep b landscape font w.regs
              w.captured w.scope
            ≡ ok swept')
        × (iterate b landscape font g' w.regs w.captured (ticks later shared) w.scope
            ≡ ok (shared', swept'.0, swept'.1))
  iterate-serves m idr held g later w g' running up₀ up₃ low₀ low₃ stay₀ stay₃ late₀ late₃ sound
        again₀ again₃ =
      let pressed = ticks (idr ∷ held) m.shared in
      let (four, state₀, mark₀) =
        ticks-pressed 0 (omega arith) m.shared idr held running.four up₀.0 up₀.1 low₀ in
      let (_, state₃, mark₃) =
        ticks-pressed 3 (omega arith) m.shared idr held running.four up₃.0 up₃.1 low₃ in
      let (
        swept, timed, tuned, returns, times, tunes, rounds, index, index', four', held₀, off₀,
        held₃, off₃,
      ) =
        round-serves m.world pressed g running.sound four stay₀ stay₃ (state₀, mark₀)
          (state₃, mark₃) in
      let shared = served g pressed in
      let (still₀, off₀') = ticks-held 0 (omega arith) later shared four' late₀ held₀ in
      let (still₃, off₃') = ticks-held 3 (omega arith) later shared four' late₃ held₃ in
      let (swept', returns', rounds') =
        round-idles w (ticks later shared) g' sound (ticks-length later shared ∙ four') again₀
          again₃ (still₀, off₀' ∙ off₀) (still₃, off₃' ∙ off₃) in
      (
        swept,
        timed,
        tuned,
        shared,
        returns,
        times,
        tunes,
        rounds,
        index,
        index',
        swept',
        ticks g'.between (ticks g'.in_sweep (ticks later shared)),
        returns',
        rounds',
      )
