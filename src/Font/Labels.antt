-- ===== src/Font/Labels.antt =====
-- The labels of main.rs on the status line, in the font of parallax_8x12_font.rs.
use stm32f3_oscilloscope.Prelude.{
  ℕ, ◌+◌, ◌-◌, ◌<◌, ◌≤◌, ◌≡◌, refl, sym, ◌∙◌, true, List, ◌++◌, map, length, All, leb, arith,
}
use stm32f3_oscilloscope.Prelude.Distinct.{number, distinct}
use stm32f3_oscilloscope.Prelude.Word.{Build, ok}
use stm32f3_oscilloscope.Device.{Action}
use stm32f3_oscilloscope.Capture.{timebase_actions}
use stm32f3_oscilloscope.Lcd.{landscape, green, black}
use stm32f3_oscilloscope.Settings.{
  bytes, siggen_frequencies, timebase_intervals, SiggenFreq, TimebaseInterval,
  set_siggen_freq_from_index, set_capture_timebase_from_index,
}
use stm32f3_oscilloscope.Settings.Status.{unset, entry, set_siggen_freq_from_index_lem}
use stm32f3_oscilloscope.Screen.{Screen, Driver, show}
use stm32f3_oscilloscope.Screen.Status.{
  status_pixel, frequency_pixel, timebase-shows, frequency-shows,
}
use stm32f3_oscilloscope.Screen.Writing.{text_pixel}
use stm32f3_oscilloscope.Font.{font_8x12}
use stm32f3_oscilloscope.Font.Distinct.{font_8x12-length}
use stm32f3_oscilloscope.Font.Readable.{IsAscii}
use stm32f3_oscilloscope.Font.Padding.{pad, texts-told}

abbrev timebase_label : TimebaseInterval → List ℕ
timebase_label t = t.label ++ bytes "/div"

timebase_labels-distinct :
    distinct (map (λ t. number (pad 9 (timebase_label t))) timebase_intervals) ≡ true
timebase_labels-distinct = refl

timebase_labels-plain :
    All
      (λ t. (length (timebase_label t) ≤ 9) × All IsAscii (pad 9 (timebase_label t)))
      timebase_intervals
timebase_labels-plain = omega arith

frequency_labels-distinct :
    distinct (map (λ (f : SiggenFreq). number (pad 7 f.label)) siggen_frequencies) ≡ true
frequency_labels-distinct = refl

frequency_labels-plain :
    All (λ (f : SiggenFreq). (length f.label ≤ 7) × All IsAscii (pad 7 f.label)) siggen_frequencies
frequency_labels-plain = omega arith

status_pixel-line :
    (text : List ℕ) (u v old : ℕ)
    → status_pixel font_8x12 text u (116 + v) old ≡ text_pixel font_8x12 green black text u v 0
status_pixel-line text u v old =
    let below : leb 116 (116 + v) ≡ true = ground arith in
    let row : 116 + v - 116 ≡ v = omega arith in rw (below, row)

frequency_pixel-line :
    (label : List ℕ) (u v old : ℕ)
    → frequency_pixel font_8x12 label (104 + u) (116 + v) old
      ≡ text_pixel font_8x12 green black label u v 0
frequency_pixel-line label u v old =
    let below : leb 116 (116 + v) ≡ true = ground arith in
    let right : leb 104 (104 + u) ≡ true = ground arith in
    let row : 116 + v - 116 ≡ v = omega arith in
    let column : 104 + u - 104 ≡ u = omega arith in rw (below, right, row, column)

module _ (d : Driver) (b : Build) (i k : ℕ) (s s' : Screen) where
  -- In the font of the program, and in both builds: at two indices of the table of timebases,
  -- `set_capture_timebase_from_index` returns, and if afterwards the status line, rows 116 to 127
  -- of the panel, looks the same in both cases, whatever was there before, then the indices are
  -- the same.
  pub timebase-told :
      i < length timebase_intervals
      → k < length timebase_intervals
      → (actions : List Action) × (actions' : List Action) × (set_capture_timebase_from_index b
            landscape font_8x12 i
          ≡ ok actions)
        × (set_capture_timebase_from_index b landscape font_8x12 k ≡ ok actions')
        × (((x y : ℕ)
              → x < 160
              → 116 ≤ y
              → y < 128
              → (show d actions s).frame x y ≡ (show d actions' s').frame x y)
            → i ≡ k)
  timebase-told hi hk =
      let (arr, psc, drawing, sets, _, shown) =
        timebase-shows d font_8x12 b i s font_8x12-length hi in
      let (arr', psc', drawing', sets', _, shown') =
        timebase-shows d font_8x12 b k s' font_8x12-length hk in
      (
        timebase_actions arr psc ++ drawing,
        timebase_actions arr' psc' ++ drawing',
        sets,
        sets',
        λ same.
            texts-told 9 timebase_label timebase_intervals unset timebase_labels-distinct
              timebase_labels-plain i k hi hk
              (λ u v hu hv.
                sym (status_pixel-line _ u v (s.frame u (116 + v)))
                ∙ sym (shown u (116 + v) (omega arith) (omega arith))
                ∙ same u (116 + v) (omega arith) (omega arith) (omega arith)
                ∙ shown' u (116 + v) (omega arith) (omega arith)
                ∙ status_pixel-line _ u v (s'.frame u (116 + v))),
      )

  -- In the font of the program, and in both builds: at two indices of the table of frequencies,
  -- `set_siggen_freq_from_index` returns, and if afterwards the status line, rows 116 to 127 of the
  -- panel, looks the same in both cases, whatever was there before, then the indices are the same.
  pub frequency-told :
      i < length siggen_frequencies
      → k < length siggen_frequencies
      → (actions : List Action) × (actions' : List Action) × (set_siggen_freq_from_index b landscape
            font_8x12 i
          ≡ ok actions)
        × (set_siggen_freq_from_index b landscape font_8x12 k ≡ ok actions')
        × (((x y : ℕ)
              → x < 160
              → 116 ≤ y
              → y < 128
              → (show d actions s).frame x y ≡ (show d actions' s').frame x y)
            → i ≡ k)
  frequency-told hi hk =
      let (arr, sets, _, _) = set_siggen_freq_from_index_lem b font_8x12 font_8x12-length i hi in
      let (arr', sets', _, _) = set_siggen_freq_from_index_lem b font_8x12 font_8x12-length k hk in
      (
        _,
        _,
        sets,
        sets',
        λ same.
            texts-told 7 (λ (f : SiggenFreq). f.label) siggen_frequencies entry
              frequency_labels-distinct frequency_labels-plain i k hi hk
              (λ u v hu hv.
                sym (frequency_pixel-line _ u v (s.frame (104 + u) (116 + v)))
                ∙ sym (
                    frequency-shows d font_8x12 _ s (104 + u) (116 + v) (omega arith) (omega arith))
                ∙ same (104 + u) (116 + v) (omega arith) (omega arith) (omega arith)
                ∙ frequency-shows d font_8x12 _ s' (104 + u) (116 + v) (omega arith) (omega arith)
                ∙ frequency_pixel-line _ u v (s'.frame (104 + u) (116 + v))),
      )
