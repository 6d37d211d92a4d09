-- ===== src/Screen/Controller/Drawing.antt =====
-- The drawing of st7735.rs and main.rs opens a window before it sends the pixels of it.
use stm32f3_oscilloscope.Prelude.{
  ℕ, zero, suc, ◌+◌, ◌*◌, ◌^◌, ◌<◌, ◌≤◌, refl, inl, inr, List, [], ◌∷◌, ◌++◌, length, ltb, ◌==◌,
  true, false, Bool-cases, arith,
}
use stm32f3_oscilloscope.Prelude.Int.{pos}
use stm32f3_oscilloscope.Device.{Action, Registers, adc1_isr_ovr}
use stm32f3_oscilloscope.Led.{Led, led_toggle}
use stm32f3_oscilloscope.Capture.{check_adc_ovr_flag}
use stm32f3_oscilloscope.Lcd.{Color, green, black, send_times}
use stm32f3_oscilloscope.Lcd.Glyph.{glyph, glyph_pixel}
use stm32f3_oscilloscope.Lcd.Glyph.Stream.{send_stream}
use stm32f3_oscilloscope.Lcd.Print.{glyphs}
use stm32f3_oscilloscope.Settings.Status.{blank_line, line}
use stm32f3_oscilloscope.Sweep.{erase, pixel}
use stm32f3_oscilloscope.Screen.Controller.Order.{IsOrderly, IsOrderly-append}

pub send_times-IsOrderly : (n color : ℕ) → IsOrderly true (send_times n color)
unfolding send_times
send_times-IsOrderly zero color = tt
send_times-IsOrderly (suc n) color =
    (refl, omega arith, (refl, omega arith, send_times-IsOrderly n color))

send_stream-IsOrderly : (f : ℕ → ℕ) (n i : ℕ) → IsOrderly true (send_stream f n i)
send_stream-IsOrderly f zero i = tt
send_stream-IsOrderly f (suc n) i =
    (refl, omega arith, (refl, omega arith, send_stream-IsOrderly f n (i + 1)))

module _ (font : List ℕ) (fg bg : Color) where
  glyph-IsOrderly :
      (x y c : ℕ) → x + 7 < 2 ^ 8 → y + 11 < 2 ^ 8 → IsOrderly false (glyph font fg bg x y c)
  glyph-IsOrderly x y c hx hy = elim (Bool-cases (ltb c 128)) [
    | inl e ↦
        rw e
          (omega arith, omega arith, hx, hy, send_stream-IsOrderly (glyph_pixel font fg bg c) 96 0)
    | inr e ↦ rw e tt
  ]

  pub glyphs-IsOrderly :
      (y x : ℕ) (text : List ℕ)
      → x + 8 * length text ≤ 2 ^ 8
      → y + 11 < 2 ^ 8
      → IsOrderly false (glyphs font fg bg y x text)
  glyphs-IsOrderly y x [] hx hy = tt
  glyphs-IsOrderly y x (c ∷ text) hx hy =
      IsOrderly-append false (glyph font fg bg x y c) (glyphs font fg bg y (x + 8) text)
        (glyph-IsOrderly x y c (omega arith) hy) (glyphs-IsOrderly y (x + 8) text (omega arith) hy)

module _ (font : List ℕ) where
  -- Two texts on the status line, behind some accesses of registers.
  pub status-IsOrderly :
      (set : List Action) (x x' : ℕ) (text text' : List ℕ)
      → IsOrderly false set
      → x + 8 * length text ≤ 160
      → x' + 8 * length text' ≤ 160
      → IsOrderly false (set ++ (blank_line ++ (line font x text ++ line font x' text')))
  status-IsOrderly set x x' text text' h hx hx' =
      IsOrderly-append false set (blank_line ++ (line font x text ++ line font x' text')) h (
        IsOrderly-append false blank_line (line font x text ++ line font x' text')
          (omega arith, omega arith, omega arith, omega arith, send_times-IsOrderly 1920 0)
          (IsOrderly-append false (line font x text) (line font x' text')
            (glyphs-IsOrderly font green black 116 x text (omega arith) (omega arith))
            (glyphs-IsOrderly font green black 116 x' text' (omega arith) (omega arith))))

pub check-IsOrderly : (r : Registers) → IsOrderly false (check_adc_ovr_flag r).1
unfolding check_adc_ovr_flag
check-IsOrderly r = elim (Bool-cases (r adc1_isr_ovr == 0)) [ inl e ↦ rw e tt | inr e ↦ rw e tt ]

pub toggle-IsOrderly : (led : Led) (odr : ℕ) → IsOrderly false (led_toggle led odr)
unfolding led_toggle
toggle-IsOrderly led odr = ground arith

pub plot-IsOrderly :
    (x old row : ℕ) (c : Color) → IsOrderly false (erase x old ++ (pixel (pos x) (pos row) c ∷ []))
unfolding erase
plot-IsOrderly x old row c =
    IsOrderly-append false (erase x old) (pixel (pos x) (pos row) c ∷ []) (ground arith) tt
