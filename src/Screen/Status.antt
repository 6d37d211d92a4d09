-- ===== src/Screen/Status.antt =====
-- What the status line shows once a timebase of main.rs is set.
use stm32f3_oscilloscope.Prelude.{
  ℕ, suc, ◌+◌, ◌-◌, ◌*◌, ◌<◌, ◌≡◌, refl, ap, ◌∙◌, true, List, [], ◌∷◌, ◌++◌, length, get_or, leb,
  if◌then◌else◌, arith,
}
use stm32f3_oscilloscope.Prelude.Word.{Build, ok}
use stm32f3_oscilloscope.Device.{Action}
use stm32f3_oscilloscope.Capture.{timebase_actions}
use stm32f3_oscilloscope.Lcd.{Color, green, black, landscape}
use stm32f3_oscilloscope.Settings.{
  bytes, timebase_intervals, TimebaseInterval, set_capture_timebase_from_index,
}
use stm32f3_oscilloscope.Settings.Status.{
  unset, blank_line, line, timebase_text, set_capture_timebase_from_index-ok,
}
use stm32f3_oscilloscope.Settings.Labels.{labelled_time, timebase_intervals-labelled}
use stm32f3_oscilloscope.Lcd.Print.{glyphs}
use stm32f3_oscilloscope.Screen.{Screen, Driver, show}
use stm32f3_oscilloscope.Screen.Stream.{show-append}
use stm32f3_oscilloscope.Screen.Drawing.{fill-shows}
use stm32f3_oscilloscope.Screen.Writing.{text_pixel, line_pixel, glyphs-shows}

module _ (font : List ℕ) (fg bg : Color) where
  -- A text right behind another one.
  text_pixel-append :
      (xs ys : List ℕ) (u v old : ℕ)
      → text_pixel font fg bg (xs ++ ys) u v old ≡ (
          if leb (8 * length xs) u
          then text_pixel font fg bg ys (u - 8 * length xs) v old
          else text_pixel font fg bg xs u v old)
  text_pixel-append [] ys u v old = ground arith
  text_pixel-append (x ∷ xs) ys u v old =
      let same : u - 8 * suc (length xs) ≡ u - 8 - 8 * length xs = omega arith in
      rw (same, text_pixel-append xs ys (u - 8) v old) (ground arith)

  -- A text leaves what is behind its end.
  text_pixel-behind :
      (xs : List ℕ) (u v old : ℕ) → 8 * length xs < u + 1 → text_pixel font fg bg xs u v old ≡ old
  text_pixel-behind [] u v old h = refl
  text_pixel-behind (x ∷ xs) u v old h =
      ground (arith, text_pixel-behind xs (u - 8) v old (omega arith))

  -- Two texts on the last line of the panel, the second one from column 104 on.
  two_texts :
      (xs ys : List ℕ) (i j blank old : ℕ)
      → 8 * length xs < 105
      → i < 160
      → j < 128
      → blank ≡ (if leb 116 j then 0 else old)
      → line_pixel font fg bg ys 104 116 i j (line_pixel font fg bg xs 0 116 i j blank) ≡ (
          if leb 116 j
          then (if leb 104 i
              then text_pixel font fg bg ys (i - 104) (j - 116) 0
              else text_pixel font fg bg xs i (j - 116) 0)
          else old)
  two_texts xs ys i j blank old short hi hj e =
      ground (arith, text_pixel-behind xs i (j - 116) blank)

  -- Two texts on a line, the second one where the first one ends.
  lines-shows :
      (d : Driver) (xs ys : List ℕ) (y : ℕ) (s : Screen) (i j : ℕ)
      → (show d (glyphs font fg bg y 0 xs ++ glyphs font fg bg y (8 * length xs) ys) s).frame i j
        ≡ line_pixel font fg bg (xs ++ ys) 0 y i j (s.frame i j)
  lines-shows d xs ys y s i j =
      let n = 8 * length xs in
      let first = glyphs font fg bg y 0 xs in
      ap (λ (t : Screen). t.frame i j) (show-append d first (glyphs font fg bg y n ys) s)
      ∙ glyphs-shows font fg bg d y ys n (show d first s) i j
      ∙ rw (glyphs-shows font fg bg d y xs 0 s i j) (
          ground (
            arith,
            text_pixel-append xs ys i (j - y) (s.frame i j),
            text_pixel-behind xs i (j - y) (s.frame i j),
          ))

-- The status line for a frequency: the caption, and the label from column 104 on, in green on black,
-- and black elsewhere.
abbrev pub frequency_pixel : List ℕ → List ℕ → ℕ → ℕ → ℕ → ℕ
frequency_pixel font label i j old =
    if leb 116 j
    then (if leb 104 i
        then text_pixel font green black label (i - 104) (j - 116) 0
        else text_pixel font green black (bytes "siggen freq:") i (j - 116) 0)
    else old

-- The status line as a picture: a text from the left edge in green on black, and black behind it.
abbrev pub status_pixel : List ℕ → List ℕ → ℕ → ℕ → ℕ → ℕ
status_pixel font text i j old =
    if leb 116 j then text_pixel font green black text i (j - 116) 0 else old

module _ (d : Driver) (font : List ℕ) where
  status-shows :
      (t : TimebaseInterval) (s : Screen) (i j : ℕ)
      → i < 160
      → j < 128
      → (show d (blank_line ++ timebase_text font t) s).frame i j
        ≡ status_pixel font (t.label ++ bytes "/div") i j (s.frame i j)
  status-shows t s i j hi hj =
      let blank = show d blank_line s in
      ap (λ (t : Screen). t.frame i j) (show-append d blank_line (timebase_text font t) s)
      ∙ lines-shows font green black d t.label (bytes "/div") 116 blank i j
      ∙ ground (
        arith,
        fill-shows d s 0 116 160 12 159 127 0 (omega arith) (omega arith) (omega arith) refl refl i
            j,
      )

  pub frequency-shows :
      (label : List ℕ) (s : Screen) (i j : ℕ)
      → i < 160
      → j < 128
      → (show d (blank_line ++ (line font 0 (bytes "siggen freq:") ++ line font 104 label)) s).frame
          i j
        ≡ frequency_pixel font label i j (s.frame i j)
  frequency-shows label s i j hi hj =
      let blank = show d blank_line s in
      let caption = line font 0 (bytes "siggen freq:") in
      ap (λ (t : Screen). t.frame i j) (show-append d blank_line (caption ++ line font 104 label) s)
      ∙ ap (λ (t : Screen). t.frame i j) (show-append d caption (line font 104 label) blank)
      ∙ glyphs-shows font green black d 116 label 104 (show d caption blank) i j
      ∙ rw (glyphs-shows font green black d 116 (bytes "siggen freq:") 0 blank i j) (
          two_texts font green black (bytes "siggen freq:") label i j (blank.frame i j)
            (s.frame i j) (omega arith) hi hj
            (fill-shows d s 0 116 160 12 159 127 0 (omega arith) (omega arith) (omega arith) refl
                refl i j
              ∙ ground arith))

  -- With a font of 1,536 bytes, for every entry of the table of timebases, in both builds and
  -- whatever the display shows: `set_capture_timebase_from_index` returns. It sets the timer to a
  -- period with which 32 samples, a division of the graticule, take the time that the entry's
  -- label says, exactly or to 2.3 percent where the label has a '~'; then rows 116 to 127 of the
  -- panel show that label with "/div" behind it, in green on black, and nothing else, and the rows
  -- above are as before.
  pub timebase-shows :
      (b : Build) (i : ℕ) (s : Screen)
      → length font ≡ 1536
      → i < length timebase_intervals
      → let t = get_or timebase_intervals i unset in
        (arr : ℕ) × (psc : ℕ) × (drawing : List Action) × (set_capture_timebase_from_index b
            landscape font i
          ≡ ok (timebase_actions arr psc ++ drawing))
        × (labelled_time t.label ((arr + 1) * (psc + 1)) ≡ true)
        × ((x y : ℕ)
            → x < 160
            → y < 128
            → (show d (timebase_actions arr psc ++ drawing) s).frame x y
              ≡ status_pixel font (t.label ++ bytes "/div") x y (s.frame x y))
  timebase-shows b i s size h =
      let t = get_or timebase_intervals i unset in
      let (arr, psc, set, timed) = timebase_intervals-labelled b i h in
      (
        arr,
        psc,
        blank_line ++ timebase_text font t,
        set_capture_timebase_from_index-ok b font size i h (timebase_actions arr psc) set,
        timed,
        λ x y hx hy. status-shows t s x y hx hy,
      )
