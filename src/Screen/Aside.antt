-- ===== src/Screen/Aside.antt =====
-- Actions that keep off the trace: nothing white, and nothing above row 104.
use stm32f3_oscilloscope.Prelude.{
  ℕ, ◌*◌, ◌-◌, ◌<◌, ◌≤◌, ◌≡◌, refl, sym, ap, ◌∙◌, inl, inr, List, [], ◌∷◌, ◌++◌, length, ◌==◌,
  Bool-cases, arith,
}
use stm32f3_oscilloscope.Device.{Action, write, Registers, adc1_isr_ovr, tim2_arr}
use stm32f3_oscilloscope.Led.{Led, led_toggle}
use stm32f3_oscilloscope.Capture.{check_adc_ovr_flag, timebase_actions}
use stm32f3_oscilloscope.Lcd.{green, black}
use stm32f3_oscilloscope.Lcd.Print.{glyphs}
use stm32f3_oscilloscope.Settings.{bytes}
use stm32f3_oscilloscope.Settings.Status.{blank_line, line}
use stm32f3_oscilloscope.Screen.{Screen, Driver, show}
use stm32f3_oscilloscope.Screen.Stream.{show-append}
use stm32f3_oscilloscope.Screen.Drawing.{fill-shows}
use stm32f3_oscilloscope.Screen.Writing.{letter, text_pixel, glyphs-shows}

abbrev pub white_code : ℕ
white_code = 0xffff

-- No pixel of the panel becomes white, and above row 104 every one is as before.
pub record IsAside (d : Driver) (actions : List Action) : Type 0 where
  pub dark :
      (s : Screen) (i j : ℕ)
      → i < 160
      → j < 128
      → (show d actions s).frame i j ≡ white_code
      → s.frame i j ≡ white_code
  pub above :
      (s : Screen) (i j : ℕ) → i < 160 → j < 104 → (show d actions s).frame i j ≡ s.frame i j

letter-dark : (font : List ℕ) (c u v : ℕ) → letter font green black c u v < white_code
letter-dark font c u v = ground arith

text_pixel-dark :
    (font text : List ℕ) (u v old : ℕ)
    → text_pixel font green black text u v old ≡ white_code
    → old ≡ white_code
text_pixel-dark font [] u v old e = e
text_pixel-dark font (c ∷ text) u v old e =
    ground (arith, letter-dark font c u v, text_pixel-dark font text (u - 8) v old)

module _ (d : Driver) where
  pub IsAside-append : (xs ys : List Action) → IsAside d xs → IsAside d ys → IsAside d (xs ++ ys)
  IsAside-append xs ys hx hy = record {
    dark = λ s i j hi hj e. hx.dark s i j hi hj (
        hy.dark (show d xs s) i j hi hj
          (ap (λ (t : Screen). t.frame i j) (sym (show-append d xs ys s)) ∙ e));
    above = λ s i j hi hj.
        ap (λ (t : Screen). t.frame i j) (show-append d xs ys s)
        ∙ hy.above (show d xs s) i j hi hj
        ∙ hx.above s i j hi hj;
  }

  -- Without a call for the display.
  pub quiet-IsAside :
      (actions : List Action) → ((s : Screen) → show d actions s ≡ s) → IsAside d actions
  quiet-IsAside actions same = record {
    dark = λ s i j hi hj e. ap (λ (t : Screen). t.frame i j) (sym (same s)) ∙ e;
    above = λ s i j hi hj. ap (λ (t : Screen). t.frame i j) (same s);
  }

  pub check-IsAside : (r : Registers) → IsAside d (check_adc_ovr_flag r).1
  unfolding check_adc_ovr_flag
  check-IsAside r = elim (Bool-cases (r adc1_isr_ovr == 0)) [
    | inl e ↦ rw e (quiet-IsAside _ (λ s. refl))
    | inr e ↦ rw e (quiet-IsAside _ (λ s. refl))
  ]

  pub toggle-IsAside : (led : Led) (odr : ℕ) → IsAside d (led_toggle led odr)
  unfolding led_toggle
  toggle-IsAside led odr = quiet-IsAside (led_toggle led odr) (λ s. ground arith)

  blank_line-IsAside : IsAside d blank_line
  blank_line-IsAside = record {
    dark = λ s i j hi hj e. ground (
      arith,
      e,
      fill-shows d s 0 116 160 12 159 127 0 (omega arith) (omega arith) (omega arith) refl refl i j,
    );
    above = λ s i j hi hj.
        fill-shows d s 0 116 160 12 159 127 0 (omega arith) (omega arith) (omega arith) refl refl i
          j
        ∙ ground arith;
  }

  -- A text in green on black has no white.
  pub glyphs-dark :
      (font : List ℕ) (y x : ℕ) (text : List ℕ) (s : Screen) (i j : ℕ)
      → (show d (glyphs font green black y x text) s).frame i j ≡ white_code
      → s.frame i j ≡ white_code
  glyphs-dark font y x text s i j e =
      let pixel = glyphs-shows font green black d y text x s i j in
      ground (arith, pixel, e, text_pixel-dark font text (i - x) (j - y) (s.frame i j))

  -- A line of it at row 104 or below.
  pub glyphs-IsAside :
      (font : List ℕ) (y x : ℕ) (text : List ℕ)
      → 104 ≤ y
      → IsAside d (glyphs font green black y x text)
  glyphs-IsAside font y x text low = record {
    dark = λ s i j hi hj e. glyphs-dark font y x text s i j e;
    above = λ s i j hi hj. glyphs-shows font green black d y text x s i j ∙ ground arith;
  }

  status-IsAside :
      (font : List ℕ) (x x' : ℕ) (text text' : List ℕ)
      → IsAside d (blank_line ++ (line font x text ++ line font x' text'))
  status-IsAside font x x' text text' =
      IsAside-append blank_line (line font x text ++ line font x' text') blank_line-IsAside (
        IsAside-append (line font x text) (line font x' text')
          (glyphs-IsAside font 116 x text (omega arith))
          (glyphs-IsAside font 116 x' text' (omega arith)))

  -- The settings of a frequency and of a timebase.
  pub tuned-IsAside :
      (font : List ℕ) (arr : ℕ) (label : List ℕ)
      → IsAside d (
          write ((tim2_arr, arr) ∷ [])
          ∷ (blank_line ++ (line font 0 (bytes "siggen freq:") ++ line font 104 label)))
  tuned-IsAside font arr label =
      IsAside-append (write ((tim2_arr, arr) ∷ []) ∷ [])
        (blank_line ++ (line font 0 (bytes "siggen freq:") ++ line font 104 label))
        (quiet-IsAside (write ((tim2_arr, arr) ∷ []) ∷ []) (λ s. refl))
        (status-IsAside font 0 104 (bytes "siggen freq:") label)

  pub timed-IsAside :
      (font : List ℕ) (arr psc : ℕ) (label : List ℕ)
      → IsAside d (
          timebase_actions arr psc
          ++ (blank_line ++ (line font 0 label ++ line font (8 * length label) (bytes "/div"))))
  timed-IsAside font arr psc label =
      IsAside-append (timebase_actions arr psc)
        (blank_line ++ (line font 0 label ++ line font (8 * length label) (bytes "/div")))
        (quiet-IsAside (timebase_actions arr psc) (λ s. refl))
        (status-IsAside font 0 (8 * length label) label (bytes "/div"))
