-- ===== src/Boot/Drawn.antt =====
-- What the preparation of main.rs draws.
use stm32f3_oscilloscope.Prelude.{ℕ, ◌*◌, ◌≤◌, false, List, [], ◌∷◌, ◌++◌, length, arith}
use stm32f3_oscilloscope.Device.{
  Action, write, delay_ms, lcd, init_r, set_rotation, fill_screen, Addresses, tim2_arr,
}
use stm32f3_oscilloscope.Led.{ld4, led_on}
use stm32f3_oscilloscope.Siggen.Configure as Generator
use stm32f3_oscilloscope.Capture.{timebase_actions}
use stm32f3_oscilloscope.Capture.Configure as Input
use stm32f3_oscilloscope.Lcd.{green, black, color_code}
use stm32f3_oscilloscope.Lcd.Print.{glyphs}
use stm32f3_oscilloscope.Settings.{bytes}
use stm32f3_oscilloscope.Settings.Status.{blank_line, line}
use stm32f3_oscilloscope.Screen.{Screen, Driver, show}
use stm32f3_oscilloscope.Screen.Aside.{tuned-IsAside, timed-IsAside}
use stm32f3_oscilloscope.Screen.Dark.{
  IsDark, StaysDark, StaysDark-append, IsAside-StaysDark, glyphs-StaysDark, red_points-StaysDark,
  cleared-IsDark,
}
use stm32f3_oscilloscope.Prelude.Int.{◌-ℤ◌}
use stm32f3_oscilloscope.Screen.Marginal.{tuned-IsMarginal, timed-IsMarginal}
use stm32f3_oscilloscope.Screen.Controller.Order.{IsOrderly, IsOrderly-append}
use stm32f3_oscilloscope.Screen.Controller.Drawing.{glyphs-IsOrderly}
use stm32f3_oscilloscope.Boot.{paint_column, paint_columns, graticule}

abbrev pub display_start : List Action
display_start =
    delay_ms 50 ∷ lcd (init_r 1) ∷ lcd (set_rotation 3) ∷ lcd (fill_screen (color_code black)) ∷ []

-- What comes before the setup of the capture, and what comes after it.
abbrev pub title : List ℕ → List Action
title font = glyphs font green black 0 0 (bytes "stm-scope")

abbrev pub earlier : List ℕ → Addresses → List Action
earlier font a = display_start ++ (title font ++ Generator.setup_actions a)

abbrev pub tuned : List ℕ → ℕ → List ℕ → List Action
tuned font arr label =
    write ((tim2_arr, arr) ∷ [])
    ∷ (blank_line ++ (line font 0 (bytes "siggen freq:") ++ line font 104 label))

abbrev pub timed : List ℕ → ℕ → ℕ → List ℕ → List Action
timed font arr psc label =
    timebase_actions arr psc
    ++ (blank_line ++ (line font 0 label ++ line font (8 * length label) (bytes "/div")))

graticule_points : List (ℕ × ℕ)
graticule_points =
    (32, 95)
    ∷ (32, 63)
    ∷ (32, 31)
    ∷ (64, 95)
    ∷ (64, 63)
    ∷ (64, 31)
    ∷ (96, 95)
    ∷ (96, 63)
    ∷ (96, 31)
    ∷ (128, 95)
    ∷ (128, 63)
    ∷ (128, 31)
    ∷ []

module _ (d : Driver) (font : List ℕ) where
  graticule-StaysDark : StaysDark d graticule
  unfolding graticule paint_columns paint_column graticule_points ◌-ℤ◌
  graticule-StaysDark = red_points-StaysDark d graticule_points (omega arith)

  pub later-StaysDark :
      (arr reload psc : ℕ) (frequency interval : List ℕ)
      → StaysDark d (
          led_on ld4 ++ (graticule ++ (tuned font arr frequency ++ timed font reload psc interval)))
  unfolding led_on
  later-StaysDark arr reload psc frequency interval =
      let settings = tuned font arr frequency ++ timed font reload psc interval in
      StaysDark-append d (led_on ld4) (graticule ++ settings) (λ s h. h)
        (StaysDark-append d graticule settings graticule-StaysDark (
          StaysDark-append d (tuned font arr frequency) (timed font reload psc interval)
            (IsAside-StaysDark d (tuned font arr frequency) (tuned-IsAside d font arr frequency))
            (IsAside-StaysDark d (timed font reload psc interval)
              (timed-IsAside d font reload psc interval))))

  -- The preparation clears the display and then draws nothing white.
  pub prepared-IsDark :
      (a : Addresses) (later : List Action) (s : Screen)
      → StaysDark d later
      → IsDark (show d (earlier font a ++ (Input.setup_actions a ++ later)) s)
  unfolding Generator.setup_actions Input.setup_actions
  prepared-IsDark a later s dark =
      let generator = Generator.setup_actions a in
      let capture = Input.setup_actions a in
      StaysDark-append d (title font ++ generator) (capture ++ later)
        (StaysDark-append d (title font) generator (glyphs-StaysDark d font 0 0 (bytes "stm-scope"))
          (λ s h. h))
        (StaysDark-append d capture later (λ s h. h) dark) (show d display_start s)
        (cleared-IsDark d s)

module _ (font : List ℕ) where
  title-IsOrderly : IsOrderly false (title font)
  title-IsOrderly =
      glyphs-IsOrderly font green black 0 0 (bytes "stm-scope") (omega arith) (omega arith)

  graticule-IsOrderly : IsOrderly false graticule
  unfolding graticule paint_columns paint_column
  graticule-IsOrderly = tt

  -- The preparation sends pixels to an open window only.
  pub prepared-IsOrderly :
      (a : Addresses) (arr reload psc : ℕ) (frequency interval : List ℕ)
      → length frequency ≤ 7
      → length interval ≤ 5
      → IsOrderly false (
          earlier font a
          ++ (Input.setup_actions a
              ++ (led_on ld4
                  ++ (graticule ++ (tuned font arr frequency ++ timed font reload psc interval)))))
  unfolding Generator.setup_actions Input.setup_actions led_on
  prepared-IsOrderly a arr reload psc frequency interval short short' =
      let settings = tuned font arr frequency ++ timed font reload psc interval in
      let later = led_on ld4 ++ (graticule ++ settings) in
      IsOrderly-append false (earlier font a) (Input.setup_actions a ++ later)
        (IsOrderly-append false (title font) (Generator.setup_actions a) title-IsOrderly tt)
        (IsOrderly-append false graticule settings graticule-IsOrderly (
          IsOrderly-append false (tuned font arr frequency) (timed font reload psc interval)
            (tuned-IsMarginal font arr frequency short).orderly
            (timed-IsMarginal font reload psc interval short').orderly))
