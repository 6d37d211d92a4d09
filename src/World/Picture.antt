-- ===== src/World/Picture.antt =====
-- The trace on the display: the main loop of main.rs with the hardware and the display together.
pub mod Plotting
pub mod Invariant
pub mod Samples
use stm32f3_oscilloscope.Prelude.{ℕ, ◌<◌, ◌≡◌, ◌⊎◌, List, get_or}
use stm32f3_oscilloscope.Prelude.Word.{Build, ok}
use stm32f3_oscilloscope.Device.{Action}
use stm32f3_oscilloscope.Lcd.{Panel}
use stm32f3_oscilloscope.Sweep.{Scope, sweep}
use stm32f3_oscilloscope.Controls.{next_timebase, next_siggen_freq}
use stm32f3_oscilloscope.Screen.{Screen, Driver, show}
use stm32f3_oscilloscope.Screen.Aside.{white_code}
use stm32f3_oscilloscope.World.{World, after_actions, Hardware}

pub record Picture : Type 0 where
  pub world : World
  pub screen : Screen

-- What the program's actions do to the world and to the display.
abbrev pub after_drawing : Driver → Picture → Scope × List Action → Picture
after_drawing d v out = record { world = after_actions v.world out; screen = show d out.1 v.screen }

-- The steps of `Step`, on the display too.
pub data Draw (d : Driver) (b : Build) (p : Panel) (font : List ℕ) (v : Picture)
    : Picture → Type 0 where
  pass :
      (out : Scope × List Action)
      → sweep b p font v.world.regs v.world.captured v.world.scope ≡ ok out
      → Draw d b p font v (after_drawing d v out)
  timebase :
      (out : Scope × List Action)
      → next_timebase b p font v.world.scope ≡ ok out
      → Draw d b p font v (after_drawing d v out)
  siggen :
      (out : Scope × List Action)
      → next_siggen_freq b p font v.world.scope ≡ ok out
      → Draw d b p font v (after_drawing d v out)
  hardware : {w : World} → Hardware v.world w → Draw d b p font v (record v { world = w })

pub data Draws (d : Driver) (b : Build) (p : Panel) (font : List ℕ) (v : Picture)
    : Picture → Type 0 where
  here : Draws d b p font v v
  next : {t u : Picture} → Draws d b p font v t → Draw d b p font t u → Draws d b p font v u

-- The display shows one trace: a white pixel of the panel is the one that its column remembers, and
-- above row 104, where no text is written, the remembered pixel is white, or red in the top row.
pub record IsTraced (previous : List ℕ) (s : Screen) : Type 0 where
  pub alone : (i j : ℕ) → i < 160 → j < 128 → s.frame i j ≡ white_code → get_or previous i 0 ≡ j
  pub shown :
      (i : ℕ)
      → i < 160
      → get_or previous i 0 < 104
      → (s.frame i (get_or previous i 0) ≡ white_code)
        ⊎ ((get_or previous i 0 ≡ 0) × (s.frame i 0 ≡ 0xf800))
