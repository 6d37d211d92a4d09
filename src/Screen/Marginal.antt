-- ===== src/Screen/Marginal.antt =====
-- What the main loop draws besides the trace: it keeps off the trace, and sends pixels to an open
-- window only.
use stm32f3_oscilloscope.Prelude.{ℕ, ◌*◌, ◌≤◌, ◌≡◌, refl, false, List, [], ◌∷◌, ◌++◌, length, arith}
use stm32f3_oscilloscope.Device.{Action, Registers, write, tim2_arr}
use stm32f3_oscilloscope.Led.{Led, led_toggle}
use stm32f3_oscilloscope.Capture.{check_adc_ovr_flag, timebase_actions}
use stm32f3_oscilloscope.Lcd.{green, black}
use stm32f3_oscilloscope.Lcd.Print.{glyphs}
use stm32f3_oscilloscope.Settings.{bytes}
use stm32f3_oscilloscope.Settings.Status.{blank_line, line}
use stm32f3_oscilloscope.Screen.{Screen, Driver, show}
use stm32f3_oscilloscope.Screen.Aside.{
  IsAside, IsAside-append, quiet-IsAside, check-IsAside, toggle-IsAside, glyphs-IsAside,
  tuned-IsAside, timed-IsAside,
}
use stm32f3_oscilloscope.Screen.Controller.Order.{IsOrderly, IsOrderly-append}
use stm32f3_oscilloscope.Screen.Controller.Drawing.{
  check-IsOrderly, toggle-IsOrderly, glyphs-IsOrderly, status-IsOrderly,
}

pub record IsMarginal (actions : List Action) : Type 0 where
  pub aside : (d : Driver) → IsAside d actions
  pub orderly : IsOrderly false actions

pub IsMarginal-append :
    (xs ys : List Action) → IsMarginal xs → IsMarginal ys → IsMarginal (xs ++ ys)
IsMarginal-append xs ys hx hy = record {
  aside = λ d. IsAside-append d xs ys (hx.aside d) (hy.aside d);
  orderly = IsOrderly-append false xs ys hx.orderly hy.orderly;
}

-- Without a call for the display.
pub quiet-IsMarginal :
    (actions : List Action)
    → ((d : Driver) (s : Screen) → show d actions s ≡ s)
    → IsOrderly false actions
    → IsMarginal actions
quiet-IsMarginal actions same h = record {
  aside = λ d. quiet-IsAside d actions (same d);
  orderly = h;
}

pub nothing-IsMarginal : IsMarginal []
nothing-IsMarginal = quiet-IsMarginal [] (λ d s. refl) tt

pub check-IsMarginal : (r : Registers) → IsMarginal (check_adc_ovr_flag r).1
check-IsMarginal r = record { aside = λ d. check-IsAside d r; orderly = check-IsOrderly r }

pub toggle-IsMarginal : (led : Led) (odr : ℕ) → IsMarginal (led_toggle led odr)
toggle-IsMarginal led odr = record {
  aside = λ d. toggle-IsAside d led odr;
  orderly = toggle-IsOrderly led odr;
}

module _ (font : List ℕ) where
  -- The warning of an overrun.
  pub warning-IsMarginal : IsMarginal (glyphs font green black 104 0 (bytes "OVR set"))
  warning-IsMarginal = record {
    aside = λ d. glyphs-IsAside d font 104 0 (bytes "OVR set") (omega arith);
    orderly = glyphs-IsOrderly font green black 104 0 (bytes "OVR set") (omega arith) (omega arith);
  }

  -- The settings of a frequency and of a timebase.
  pub tuned-IsMarginal :
      (arr : ℕ) (label : List ℕ)
      → length label ≤ 7
      → IsMarginal (
          write ((tim2_arr, arr) ∷ [])
          ∷ (blank_line ++ (line font 0 (bytes "siggen freq:") ++ line font 104 label)))
  tuned-IsMarginal arr label short = record {
    aside = λ d. tuned-IsAside d font arr label;
    orderly =
        status-IsOrderly font (write ((tim2_arr, arr) ∷ []) ∷ []) 0 104 (bytes "siggen freq:") label
          tt (omega arith) (omega arith);
  }

  pub timed-IsMarginal :
      (arr psc : ℕ) (label : List ℕ)
      → length label ≤ 5
      → IsMarginal (
          timebase_actions arr psc
          ++ (blank_line ++ (line font 0 label ++ line font (8 * length label) (bytes "/div"))))
  timed-IsMarginal arr psc label short = record {
    aside = λ d. timed-IsAside d font arr psc label;
    orderly =
        status-IsOrderly font (timebase_actions arr psc) 0 (8 * length label) label (bytes "/div")
          tt (omega arith) (omega arith);
  }
