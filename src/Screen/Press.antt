-- ===== src/Screen/Press.antt =====
-- A press of button 1 or 4 of main.rs, from its pin to the timer and the display.
use stm32f3_oscilloscope.Prelude.{
  ℕ, ◌+◌, ◌*◌, ◌%◌, ◌<◌, ◌≤◌, ◌≡◌, refl, false, List, [], ◌∷◌, ◌++◌, length, get_or, arith,
}
use stm32f3_oscilloscope.Prelude.Word.{Build, ok, >>=-of_ok}
use stm32f3_oscilloscope.Device.{Action, write, tim2_arr}
use stm32f3_oscilloscope.Interrupts.{Shared, ticks}
use stm32f3_oscilloscope.Lcd.{landscape}
use stm32f3_oscilloscope.Settings.{
  bytes, siggen_frequencies, set_siggen_freq_from_index, timebase_intervals,
}
use stm32f3_oscilloscope.Settings.Status.{entry, blank_line, line, set_siggen_freq_from_index_lem}
use stm32f3_oscilloscope.Sweep.{Scope}
use stm32f3_oscilloscope.Controls.{next_siggen_freq, check_button}
use stm32f3_oscilloscope.Controls.Presses.{at_button}
use stm32f3_oscilloscope.Controls.Response.{Low, check_button-responds}
use stm32f3_oscilloscope.Screen.{Screen, Driver, show}
use stm32f3_oscilloscope.Screen.Status.{frequency_pixel, frequency-shows}

abbrev pub following : Scope → ℕ
following s = (s.timebase_index + 1) % length timebase_intervals

abbrev pub following_freq : Scope → ℕ
following_freq s = (s.siggen_freq_index + 1) % length siggen_frequencies

module _ (b : Build) (font : List ℕ) where
  next_siggen_freq-runs :
      (s : Scope) (actions : List Action)
      → set_siggen_freq_from_index b landscape font (following_freq s) ≡ ok actions
      → next_siggen_freq b landscape font s
        ≡ ok (record s { siggen_freq_index = following_freq s }, actions)
  unfolding next_siggen_freq
  next_siggen_freq-runs s actions e = >>=-of_ok _ e refl

  -- Button 4 is released and its debounce counter has run out, and the font has 1,536 bytes. Once a
  -- tick reads the button's pin low, and as long as every tick after it does, the next check of the
  -- button in the main loop returns in both builds, goes on to the next frequency of the table, or
  -- from the last one to the first, and sets TIM2 to the period that is nearest below that
  -- frequency's for 144 samples at 36 MHz. Then the status line of the display shows the caption
  -- and the frequency's label and nothing else, and the rows above it are as before.
  pub press-tunes :
      (d : Driver) (screen : Screen) (s : Scope) (shared : Shared) (idr : ℕ)
      (held gap gap' : List ℕ)
      → length font ≡ 1536
      → length shared.buttons ≡ 4
      → (at_button shared 3).state ≡ false
      → (at_button shared 3).debounce ≡ 0
      → Low 3 (idr ∷ held)
      → Low 3 gap
      → Low 3 gap'
      → let f = get_or siggen_frequencies (following_freq s) entry in
        (shared' : Shared) × (arr : ℕ) × (drawing : List Action) × (check_button 3 gap gap'
            (next_siggen_freq b landscape font)
            (ticks (idr ∷ held) shared)
            s
          ≡ ok (
            shared',
            record s { siggen_freq_index = following_freq s },
            write ((tim2_arr, arr) ∷ []) ∷ drawing,
          ))
        × ((arr + 1) * 144 * f.frequency ≤ 36_000_000)
        × (36_000_000 < (arr + 2) * 144 * f.frequency)
        × ((x y : ℕ)
            → x < 160
            → y < 128
            → (show d (write ((tim2_arr, arr) ∷ []) ∷ drawing) screen).frame x y
              ≡ frequency_pixel font f.label x y (screen.frame x y))
  press-tunes d screen s shared idr held gap gap' size four released quiet lows low low' =
      let f = get_or siggen_frequencies (following_freq s) entry in
      let (arr, sets, above, below) =
        set_siggen_freq_from_index_lem b font size (following_freq s) (omega arith) in
      let drawing = blank_line ++ (line font 0 (bytes "siggen freq:") ++ line font 104 f.label) in
      let actions = write ((tim2_arr, arr) ∷ []) ∷ drawing in
      let (shared', checks, _) =
        check_button-responds 3 (omega arith) (next_siggen_freq b landscape font) s shared idr held
          gap gap' [] (record s { siggen_freq_index = following_freq s }, actions) four released
          quiet lows low low' tt (next_siggen_freq-runs s actions sets) in
      (
        shared',
        arr,
        drawing,
        checks,
        above,
        below,
        λ x y hx hy. frequency-shows d font f.label screen x y hx hy,
      )
