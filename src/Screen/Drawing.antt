-- ===== src/Screen/Drawing.antt =====
-- What the drawing routines of st7735.rs leave on the display.
use stm32f3_oscilloscope.Prelude.{
  ℕ, zero, suc, ◌+◌, ◌-◌, ◌*◌, ◌^◌, ◌<◌, ◌≤◌, ◌≡◌, refl, ◌∙◌, ◌&&◌, inl, inr, ◌⊎◌, List, [], ◌∷◌,
  min, ltb, if◌then◌else◌, Bool-cases, arith,
}
use native.Mathlib.Nat.{mul_comm}
use stm32f3_oscilloscope.Prelude.Int.{pos}
use stm32f3_oscilloscope.Prelude.Word.{Build, ok}
use stm32f3_oscilloscope.Device.{Action, lcd, set_addr_window}
use stm32f3_oscilloscope.Lcd.{landscape, send_times, fill_rect}
use stm32f3_oscilloscope.Lcd.Fill.{fill_rect-clipped, fill_rect-off_panel}
use stm32f3_oscilloscope.Lcd.Glyph.Stream.{send_stream}
use stm32f3_oscilloscope.Screen.{Screen, Driver, show}
use stm32f3_oscilloscope.Screen.Stream.{in_rect, rect-shows}

send_times-stream : (n i color : ℕ) → send_times n color ≡ send_stream (λ k. color) n i
unfolding send_times
send_times-stream zero i color = refl
send_times-stream (suc n) i color = rw (send_times-stream n (i + 1) color)

module _ (d : Driver) (s : Screen) where
  -- A window filled with one color.
  pub fill-shows :
      (x y w h x_end y_end color : ℕ)
      → color < 2 ^ 16
      → 0 < w
      → 0 < h
      → x + w - 1 ≡ x_end
      → y + h - 1 ≡ y_end
      → (i j : ℕ)
      → (show d (lcd (set_addr_window x y x_end y_end) ∷ send_times (w * h) color) s).frame i j
        ≡ (if in_rect x y w h i j then color else s.frame i j)
  fill-shows x y w h x_end y_end color small wide tall ex ey i j =
      let area : w * h ≡ h * w = mul_comm w h in
      rw (← ex, ← ey, area, send_times-stream (h * w) 0 color)
        (rect-shows d x y w h (λ k. color) (λ k. small) s wide tall i j)

  -- On the panel, clipping a rectangle at its edges makes no difference.
  clip-same :
      (x y w h color i j : ℕ)
      → x < 160
      → y < 128
      → i < 160
      → j < 128
      → (if in_rect x y (min (x + w) 160 - x) (min (y + h) 128 - y) i j then color else s.frame i j)
        ≡ (if in_rect x y w h i j then color else s.frame i j)
  clip-same x y w h color i j hx hy hi hj = ground arith

  -- A rectangle that is not empty, and whose ends are below 32768, on the panel, partly on it or off
  -- it to the right or below: `st7735_fill_rect` returns in both builds, and of the panel's pixels
  -- just those in the rectangle have the color, while the others are as before.
  pub fill_rect-shows :
      (b : Build) (x y w h color : ℕ)
      → color < 2 ^ 16
      → 0 < w
      → 0 < h
      → x + w < 2 ^ 15
      → y + h < 2 ^ 15
      → (actions : List Action) × (fill_rect b landscape (pos x) (pos y) (pos w) (pos h) color
          ≡ ok actions)
        × ((i j : ℕ)
            → i < 160
            → j < 128
            → (show d actions s).frame i j ≡ (if in_rect x y w h i j then color else s.frame i j))
  fill_rect-shows b x y w h color small wide tall sx sy =
      elim (Bool-cases (ltb x 160 && ltb y 128)) [
        | inl on ↦
            let hx : x < 160 = ground arith in
            let hy : y < 128 = ground arith in
            let right = min (x + w) 160 in
            let bottom = min (y + h) 128 in
            (
              lcd (set_addr_window x y (right - 1) (bottom - 1))
                  ∷ send_times ((right - x) * (bottom - y)) color,
              fill_rect-clipped b landscape x y w h color (omega arith) (omega arith) (omega arith)
                  hx hy wide tall sx sy,
              λ i j hi hj.
                  fill-shows x y (right - x) (bottom - y) (right - 1) (bottom - 1) color small
                    (omega arith) (omega arith) (omega arith) (omega arith) i j
                  ∙ clip-same x y w h color i j hx hy hi hj,
            )
        | inr off ↦
            let outside : (160 ≤ x) ⊎ (128 ≤ y) = ground arith in
            (
              [],
              fill_rect-off_panel b landscape x y w h color (omega arith) (omega arith) outside wide
                  tall sx sy,
              λ i j hi hj. ground arith,
            )
      ]
