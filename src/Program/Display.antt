-- ===== src/Program/Display.antt =====
-- The trace on the display from the boot on.
use stm32f3_oscilloscope.Prelude.{
  ℕ, ◌<◌, ◌≡◌, ◌≢◌, refl, List, ◌∷◌, ◌++◌, length, get_or, replicate, length-replicate, All-get_or,
  some, arith,
}
use stm32f3_oscilloscope.Prelude.Word.{Build, ok}
use stm32f3_oscilloscope.Device.{Action, Addresses, Registers, run, dma1_ccr1_en, dma1_cndtr1}
use stm32f3_oscilloscope.Lcd.{landscape}
use stm32f3_oscilloscope.Sweep
use stm32f3_oscilloscope.Sweep.{Scope, after}
use stm32f3_oscilloscope.Screen.{Screen, Driver, show}
use stm32f3_oscilloscope.Screen.Dark.{IsDark}
use stm32f3_oscilloscope.World.Sound.{IsComplete, IsSound-IsComplete}
use stm32f3_oscilloscope.World.Trace.{All-replicate, booted-IsSound}
use stm32f3_oscilloscope.World.Picture.{IsTraced}
use stm32f3_oscilloscope.World.Picture.Invariant.{IsPictured, Draws-IsPictured}
use stm32f3_oscilloscope.Interrupts
use stm32f3_oscilloscope.Controls.Marks.{ticks-length}
use stm32f3_oscilloscope.Program.{at_loop}
use stm32f3_oscilloscope.Program.Invariant.{IsRunning}
use stm32f3_oscilloscope.Program.Watch.{View, Watched, picture, Watched-Draws}
use stm32f3_oscilloscope.Boot.Start.{Connection, boot}
use stm32f3_oscilloscope.Boot.Started.{boot-armed}

-- The machine and the display at the first round: `gap` is what the ticks have read until then.
abbrev pub first_view : Driver → List ℕ → Registers → Screen → Scope × List Action → View
first_view d gap r s begin = record { machine = at_loop gap r begin; screen = show d begin.1 s }

pub IsDark-IsTraced : (s : Screen) → IsDark s → IsTraced Sweep.start.previous_y s
IsDark-IsTraced s dark = record {
  alone = λ i j hi hj e. absurd (dark i j hi hj e);
  shown = λ i hi low.
      let unset : get_or Sweep.start.previous_y i 0 ≡ 255 =
        All-get_or (λ y. y ≡ 255) (replicate 160 255) i 0
          (All-replicate (λ y. y ≡ 255) 160 255 refl)
          (omega (arith, length-replicate {A = ℕ} 160 255)) in
      absurd (omega (arith, unset));
}

-- The loop as the boot leaves it.
module _ (d : Driver) (b : Build) (font : List ℕ) (r : Registers) (s : Screen) (gap : List ℕ)
    (actions : List Action) (size : length font ≡ 1536) (off : run actions r dma1_ccr1_en ≡ 0)
    (full : run actions r dma1_cndtr1 ≡ 160) where
  abbrev first : View
  first = first_view d gap r s (Sweep.start, actions)

  pub first-IsRunning : IsRunning first.machine
  first-IsRunning = record {
    sound = booted-IsSound (run actions r) off full;
    four = ticks-length gap Interrupts.start;
  }

  pub first-IsTraced :
      IsDark (show d actions s)
      → (v : View) → Watched d b landscape font first v
      → IsTraced v.machine.world.scope.previous_y v.screen
        × (v.machine.world.scope.state ≡ after → IsComplete v.machine.world)
  first-IsTraced dark v path =
      let pictured : IsPictured d b font size (picture first) = record {
        sound = booted-IsSound (run actions r) off full;
        traced = IsDark-IsTraced (show d actions s) dark;
      } in
      let reached =
        Draws-IsPictured d b font size (picture first) (picture v)
          (Watched-Draws d b font size first v path first-IsRunning) pictured in
      (reached.traced, λ e. (IsSound-IsComplete v.machine.world reached.sound e).1)

-- With the DMA channel of the capture disabled at reset, the data registers at the addresses that
-- the code asserts, a font of 1,536 bytes, either form of the connection to the display, and the
-- external clock ready within 1,279 further reads: `main` gets to its loop in both builds, and from
-- there, whatever the display showed before, whatever ticks have come and whatever the order of the
-- loop's parts, the interrupt handlers, the transfers and the other changes of the registers, the
-- display shows one trace: the only white pixel of a column is the one in the row that the column
-- remembers, and above row 104 that pixel is white, or red in the top row; and when a sweep is
-- over, the row that each of the 160 columns remembers is that of the 12-bit conversion captured
-- for it.
Watched-IsTraced :
    (d : Driver) (b : Build) (font : List ℕ) (a : Addresses) (c : Connection) (r : Registers)
    (s : Screen) (k hserdy : ℕ) (later gap : List ℕ)
    → length font ≡ 1536
    → a.dac_dhr12r2 ≡ 0x40007414
    → a.dac_dhr8r1 ≡ 0x40007410
    → a.adc1_dr ≡ 0x50000040
    → r dma1_ccr1_en ≡ 0
    → k < 1280
    → hserdy ≢ 0
    → (begin : Scope × List Action) × (boot b landscape font a c (replicate k 0 ++ hserdy ∷ later) r
        ≡ some (ok begin))
      × ((v : View)
          → Watched d b landscape font (first_view d gap r s begin) v
          → IsTraced v.machine.world.scope.previous_y v.screen
            × (v.machine.world.scope.state ≡ after → IsComplete v.machine.world))
Watched-IsTraced d b font a c r s k hserdy later gap size e3 e4 e1 idle h on =
    let (actions, returns, off, full, _, dark, _) =
      (boot-armed b font a c r k later size e3 e4 e1 idle).0 hserdy h on in
    (
      (Sweep.start, actions),
      returns,
      first-IsTraced d b font r s gap actions size off full (dark d s),
    )
