-- ===== src/Settings/Status.antt =====
-- What setting an entry of a table of main.rs writes and shows, for every entry.
use stm32f3_oscilloscope.Prelude.{
  ℕ, ◌+◌, ◌-◌, ◌*◌, ◌/◌, ◌%◌, ◌^◌, ◌≤◌, ◌<◌, ◌≡◌, ◌≢◌, refl, ◌∙◌, ap, List, [], ◌∷◌, ◌++◌, length,
  take_all, get_or, All, All-get_or, arith,
}
use stm32f3_oscilloscope.Prelude.Word.{Build, Result, ok, >>=-of_ok, index-eq-get_or, mul_bits}
use stm32f3_oscilloscope.Device.{Action, lcd, write, set_addr_window, tim2_arr}
use stm32f3_oscilloscope.Siggen.Frequency.{siggen_set_freq-nearest}
use stm32f3_oscilloscope.Capture.{set_timebase, timebase_actions}
use stm32f3_oscilloscope.Capture.Timebase.{set_timebase-period, set_timebase-fits, clock_after}
use stm32f3_oscilloscope.Lcd.{landscape, green, black, send_times}
use stm32f3_oscilloscope.Lcd.Fill.{fill_rect-clipped}
use stm32f3_oscilloscope.Lcd.Print.{glyphs, print-glyphs}
use stm32f3_oscilloscope.Settings.{
  bytes, SiggenFreq, siggen_frequencies, TimebaseInterval, timebase_intervals, clear_status_line,
  print_status, set_siggen_freq_from_index, set_capture_timebase_from_index,
}

abbrev pub entry : SiggenFreq
entry = record { frequency = 0; label = [] }

abbrev IsSettable : SiggenFreq → Type 0
IsSettable f = (0 < f.frequency) × (f.frequency ≤ 10_000) × (length f.label ≤ 7)

siggen_frequencies-IsSettable : All IsSettable siggen_frequencies
siggen_frequencies-IsSettable = omega arith

abbrev pub unset : TimebaseInterval
unset = record { sample_rate = 0; label = [] }

abbrev IsUsable : TimebaseInterval → Type 0
IsUsable t =
    (0 < t.sample_rate)
    × (t.sample_rate ≤ 72_000_000)
    × (length t.label ≤ 5)
    × (t.sample_rate ≢ 1098)

timebase_intervals-IsUsable : All IsUsable timebase_intervals
timebase_intervals-IsUsable = omega arith

-- The labels fit the places that they are printed at.
pub siggen_label-short :
    (i : ℕ) → i < length siggen_frequencies → length (get_or siggen_frequencies i entry).label ≤ 7
siggen_label-short i h =
    (All-get_or IsSettable siggen_frequencies i entry siggen_frequencies-IsSettable h).2

pub timebase_label-short :
    (i : ℕ) → i < length timebase_intervals → length (get_or timebase_intervals i unset).label ≤ 5
timebase_label-short i h =
    (All-get_or IsUsable timebase_intervals i unset timebase_intervals-IsUsable h).2

-- Rows 116 to 127 of the panel in black: the status line.
abbrev pub blank_line : List Action
blank_line = lcd (set_addr_window 0 116 159 127) ∷ send_times 1920 0

-- A text on the status line, whole.
abbrev pub line : List ℕ → ℕ → List ℕ → List Action
line font x text = glyphs font green black 116 x text

-- The text of a timebase: its label, and the unit right behind it.
abbrev pub timebase_text : List ℕ → TimebaseInterval → List Action
timebase_text font t = line font 0 t.label ++ line font (8 * length t.label) (bytes "/div")

module _ (b : Build) (font : List ℕ) (size : length font ≡ 1536) where
  clear_status_line_lem : clear_status_line b landscape font ≡ ok blank_line
  unfolding clear_status_line
  clear_status_line_lem =
      fill_rect-clipped b landscape 0 116 160 12 0 (omega arith) (omega arith) (omega arith)
        (omega arith) (omega arith) (omega arith) (omega arith) (omega arith) (omega arith)

  print_status_lem :
      (text : List ℕ) (x : ℕ)
      → x + 8 * length text ≤ 160
      → print_status b landscape font text x ≡ ok (line font x text)
  print_status_lem text x h =
      (print-glyphs font green black 116 b landscape size (omega arith) (omega arith) (omega arith)
          text x (omega arith)).0
        (omega arith)
      ∙ ap (λ (t : List ℕ). Result.ok (line font x t)) (take_all ((160 - x) / 8) text (omega arith))

  -- On the panel in landscape, with a font of 1,536 bytes and for every entry of the
  -- table, `set_siggen_freq_from_index` returns in both builds; it writes
  -- the period that is nearest below the entry's, blanks the status line and prints the
  -- caption and the entry's label, none of it cut off.
  pub set_siggen_freq_from_index_lem :
      (i : ℕ)
      → i < length siggen_frequencies
      → let f = get_or siggen_frequencies i entry in
        (arr : ℕ) × (set_siggen_freq_from_index b landscape font i
          ≡ ok (
              write ((tim2_arr, arr) ∷ [])
              ∷ (blank_line ++ (line font 0 (bytes "siggen freq:") ++ line font 104 f.label))))
        × ((arr + 1) * 144 * f.frequency ≤ 36_000_000)
        × (36_000_000 < (arr + 2) * 144 * f.frequency)
  unfolding set_siggen_freq_from_index
  set_siggen_freq_from_index_lem i h =
      let f = get_or siggen_frequencies i entry in
      let good : IsSettable f =
        All-get_or IsSettable siggen_frequencies i entry siggen_frequencies-IsSettable h in
      let (arr, set, above, below, fits) =
        siggen_set_freq-nearest b f.frequency good.0 (omega arith) in
      (
        arr,
        >>=-of_ok _ (index-eq-get_or siggen_frequencies i entry h) (
            >>=-of_ok _ set (
              >>=-of_ok _ clear_status_line_lem (
                >>=-of_ok _ (print_status_lem (bytes "siggen freq:") 0 (omega arith))
                  (>>=-of_ok _ (print_status_lem f.label 104 (omega arith)) refl)))),
        above,
        below,
      )

  unit_column : (n : ℕ) → n ≤ 5 → mul_bits 8 b 8 (n % 2 ^ 8) ≡ ok (8 * n)
  unit_column n h = ground arith

  -- What is drawn, for whatever `set_timebase` writes.
  pub set_capture_timebase_from_index-ok :
      (i : ℕ)
      → i < length timebase_intervals
      → let t = get_or timebase_intervals i unset in
        (set : List Action)
        → set_timebase b t.sample_rate ≡ ok set
        → set_capture_timebase_from_index b landscape font i
          ≡ ok (set ++ (blank_line ++ timebase_text font t))
  unfolding set_capture_timebase_from_index
  set_capture_timebase_from_index-ok i h set e =
      let t = get_or timebase_intervals i unset in
      let good : IsUsable t =
        All-get_or IsUsable timebase_intervals i unset timebase_intervals-IsUsable h in
      >>=-of_ok _ (index-eq-get_or timebase_intervals i unset h) (
        >>=-of_ok _ e (
          >>=-of_ok _ clear_status_line_lem (
            >>=-of_ok _ (print_status_lem t.label 0 (omega arith)) (
              >>=-of_ok _ (unit_column (length t.label) good.2) (
                >>=-of_ok _ (print_status_lem (bytes "/div") (8 * length t.label) (omega arith))
                  refl)))))

  -- On the panel in landscape, with a font of 1,536 bytes and for every entry of the
  -- table, `set_capture_timebase_from_index` returns in both builds; it
  -- writes a reload value that fits the timer's 16 bits, with a prescaler that divides 72 MHz and
  -- a period nearest below the entry's, blanks the status line and prints the label and
  -- the unit right behind it, neither cut off.
  pub set_capture_timebase_from_index_lem :
      (i : ℕ)
      → i < length timebase_intervals
      → let t = get_or timebase_intervals i unset in
        (arr : ℕ) × (psc : ℕ) × (set_capture_timebase_from_index b landscape font i
          ≡ ok (timebase_actions arr psc ++ (blank_line ++ timebase_text font t)))
        × (arr < 2 ^ 16)
        × (clock_after psc * (psc + 1) ≡ 72_000_000)
        × ((arr + 1) * t.sample_rate ≤ clock_after psc)
        × (clock_after psc < (arr + 2) * t.sample_rate)
  set_capture_timebase_from_index_lem i h =
      let t = get_or timebase_intervals i unset in
      let good : IsUsable t =
        All-get_or IsUsable timebase_intervals i unset timebase_intervals-IsUsable h in
      let (arr, psc, set, divides, above, below) =
        set_timebase-period b t.sample_rate good.0 good.1 in
      (
        arr,
        psc,
        set_capture_timebase_from_index-ok i h (timebase_actions arr psc) set,
        (set_timebase-fits b t.sample_rate arr psc good.0 good.1 set).1 good.3,
        divides,
        above,
        below,
      )
