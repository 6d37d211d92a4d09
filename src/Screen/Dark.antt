-- ===== src/Screen/Dark.antt =====
-- Actions that make nothing white, and the display before the first sweep.
use stm32f3_oscilloscope.Prelude.{ℕ, ◌<◌, ◌≡◌, ◌≢◌, sym, ap, ◌∙◌, List, [], ◌∷◌, ◌++◌, All, arith}
use stm32f3_oscilloscope.Prelude.Int.{pos}
use stm32f3_oscilloscope.Device.{Action, lcd, delay_ms, init_r, set_rotation, fill_screen}
use stm32f3_oscilloscope.Lcd.{green, black, red, color_code}
use stm32f3_oscilloscope.Lcd.Print.{glyphs}
use stm32f3_oscilloscope.Sweep.{pixel}
use stm32f3_oscilloscope.Screen.{Screen, Driver, put, show}
use stm32f3_oscilloscope.Screen.Stream.{show-append}
use stm32f3_oscilloscope.Screen.Aside.{white_code, IsAside, glyphs-dark}

-- No pixel of the panel is white.
abbrev pub IsDark : Screen → Type 0
IsDark s = (i j : ℕ) → i < 160 → j < 128 → s.frame i j ≢ white_code

module _ (d : Driver) where
  abbrev pub StaysDark : List Action → Type 0
  StaysDark actions = (s : Screen) → IsDark s → IsDark (show d actions s)

  pub StaysDark-append : (xs ys : List Action) → StaysDark xs → StaysDark ys → StaysDark (xs ++ ys)
  StaysDark-append xs ys hx hy s h i j hi hj e =
      hy (show d xs s) (hx s h) i j hi hj
        (ap (λ (t : Screen). t.frame i j) (sym (show-append d xs ys s)) ∙ e)

  pub IsAside-StaysDark : (actions : List Action) → IsAside d actions → StaysDark actions
  IsAside-StaysDark actions a s h i j hi hj e = h i j hi hj (a.dark s i j hi hj e)

  pub glyphs-StaysDark :
      (font : List ℕ) (y x : ℕ) (text : List ℕ) → StaysDark (glyphs font green black y x text)
  glyphs-StaysDark font y x text s h i j hi hj e = h i j hi hj (glyphs-dark d font y x text s i j e)

  -- Points in red.
  abbrev pub red_points : List (ℕ × ℕ) → List Action
  red_points [] = []
  red_points ((x, y) ∷ points) = pixel (pos x) (pos y) red ∷ red_points points

  pub red_points-StaysDark :
      (points : List (ℕ × ℕ))
      → All (λ (point : ℕ × ℕ). (point.0 < 160) × (point.1 < 128)) points
      → StaysDark (red_points points)
  red_points-StaysDark [] on s h = h
  red_points-StaysDark ((x, y) ∷ points) (on, rest) s h =
      red_points-StaysDark points rest (show d (pixel (pos x) (pos y) red ∷ []) s) first
    where
      first : IsDark (show d (pixel (pos x) (pos y) red ∷ []) s)
      first i j hi hj e =
          let drawn = ap (λ f. f i j) (d.draws x y 0xf800 s on.0 on.1 (omega arith)) in
          let old = h i j hi hj in
          let both : put x y 0xf800 s.frame i j ≡ white_code = sym drawn ∙ e in ground (arith)

  -- Clearing the display makes it dark, whatever it showed.
  pub cleared-IsDark :
      (s : Screen)
      → IsDark (
          show d
            (delay_ms 50
              ∷ lcd (init_r 1)
              ∷ lcd (set_rotation 3)
              ∷ lcd (fill_screen (color_code black))
              ∷ [])
            s)
  cleared-IsDark s i j hi hj e =
      let black_pixel =
        d.clears 0 i j (d.call (set_rotation 3) (d.call (init_r 1) s)) (omega arith) hi hj in
      omega (arith, sym black_pixel ∙ e)
