-- ===== src/Program/Arrival.antt =====
-- The display at the end of its connection, from the boot on.
use stm32f3_oscilloscope.Prelude.{ℕ, ◌<◌, ◌≡◌, ◌≢◌, subst, List, ◌∷◌, ◌++◌, length, replicate, some}
use stm32f3_oscilloscope.Prelude.Word.{Build, ok}
use stm32f3_oscilloscope.Device.{Action, Addresses, Registers, dma1_ccr1_en}
use stm32f3_oscilloscope.Lcd.{landscape}
use stm32f3_oscilloscope.Interrupts.{Shared}
use stm32f3_oscilloscope.Sweep
use stm32f3_oscilloscope.Sweep.{Scope, after, sweep}
use stm32f3_oscilloscope.Controls.{check_button, next_timebase, next_siggen_freq}
use stm32f3_oscilloscope.Spi.Link.{Link, SendsAll}
use stm32f3_oscilloscope.Screen.{Screen}
use stm32f3_oscilloscope.Screen.Controller.{Controller, Protocol, driver_of, sent_by}
use stm32f3_oscilloscope.Screen.Controller.Arrival.{arrived, SendsAll-shows, SendsAll-can}
use stm32f3_oscilloscope.World.Sound.{IsComplete}
use stm32f3_oscilloscope.World.Picture.{IsTraced}
use stm32f3_oscilloscope.World.Picture.Invariant.{sweep-IsOrderly}
use stm32f3_oscilloscope.Boot.Start.{Connection, boot}
use stm32f3_oscilloscope.Boot.Started.{boot-armed}
use stm32f3_oscilloscope.Program.{at_loop}
use stm32f3_oscilloscope.Program.Invariant.{IsRunning, Run-IsRunning, first_check, second_check}
use stm32f3_oscilloscope.Program.Safety.{IsRunning-Completes}
use stm32f3_oscilloscope.Program.Watch.{Watched, Watched-Run}
use stm32f3_oscilloscope.Program.Linked.{
  Station, Linked, Linked-Arrives, view, first_check-IsOrderly, second_check-IsOrderly,
}
use stm32f3_oscilloscope.Program.Display.{first-IsRunning, first-IsTraced}

-- That each part of a round returns, and that its bytes can be sent.
abbrev pub Proceeds : (l : Link) → Protocol → Build → List ℕ → Station l → Type 0
Proceeds l p b font v =
    let w = v.machine.world in
    ((out : Scope × List Action) × (line : l.State) × (sweep b landscape font w.regs w.captured
          w.scope
        ≡ ok out)
      × SendsAll l (sent_by p out.1) v.line line)
    × ((gap gap' : List ℕ)
        → (shared : Shared) × (out : Scope × List Action) × (line : l.State) × (check_button 0 gap
              gap' (next_timebase b landscape font) v.machine.shared w.scope
            ≡ ok (shared, out.0, out.1))
          × SendsAll l (sent_by p out.1) v.line line)
    × ((gap gap' : List ℕ)
        → (shared : Shared) × (out : Scope × List Action) × (line : l.State) × (check_button 3 gap
              gap' (next_siggen_freq b landscape font) v.machine.shared w.scope
            ≡ ok (shared, out.0, out.1))
          × SendsAll l (sent_by p out.1) v.line line)

module _ (l : Link) (p : Protocol) (b : Build) (font : List ℕ) (begin : Controller)
    (size : length font ≡ 1536) where
  IsRunning-Proceeds :
      (v : Station l) → IsRunning v.machine → l.IsReady v.line → Proceeds l p b font v
  IsRunning-Proceeds v h ready =
      let ((out, returns), _, _) = IsRunning-Completes b font v.machine size h in
      let (line, sends) =
        SendsAll-can p l begin out.1 v.line
          (sweep-IsOrderly b font size v.machine.world out h.sound returns) ready in
      (
        (out, line, returns, sends),
        λ gap gap'.
            let (shared, out, checks, _) = first_check b font size v.machine gap gap' h in
            let (line, sends) =
              SendsAll-can p l begin out.1 v.line
                (first_check-IsOrderly b font size v.machine gap gap' shared out h checks) ready in
            (shared, out, line, checks, sends),
        λ gap gap'.
            let (shared, out, checks, _) = second_check b font size v.machine gap gap' h in
            let (line, sends) =
              SendsAll-can p l begin out.1 v.line
                (second_check-IsOrderly b font size v.machine gap gap' shared out h checks) ready in
            (shared, out, line, checks, sends),
      )

-- The station at the first round: `gap` is what the ticks have read until then.
abbrev pub first_station :
    (l : Link) → List ℕ → Registers → Scope × List Action → l.State → Station l
first_station l gap r start line = record { machine = at_loop gap r start; line = line }

-- With the DMA channel of the capture disabled at reset, the data registers at the addresses that
-- the code asserts, a font of 1,536 bytes, either form of the connection that keeps its contract
-- and is ready, a C driver that sends what its documentation says, and the external clock ready
-- within 1,279 further reads: `main` gets to its loop in both builds and can send the bytes of its
-- start. From there, whatever the display held before, whatever ticks have come and whatever the
-- order of the loop's parts, the interrupt handlers, the transfers and the other changes of the
-- registers, each part of a round returns and can send its bytes; and once the bytes sent so far
-- have arrived, the controller's memory shows one trace: the only white pixel of a column is the
-- one in the row that the column remembers, and above row 104 that pixel is white, or red in the
-- top row. When a sweep is over, the row that each of the 160 columns remembers is that of the
-- 12-bit conversion captured for it.
pub Linked-IsTraced :
    (l : Link) (p : Protocol) (b : Build) (font : List ℕ) (begin : Controller) (a : Addresses)
    (c : Connection) (r : Registers) (line : l.State) (k hserdy : ℕ) (later gap : List ℕ)
    → length font ≡ 1536
    → a.dac_dhr12r2 ≡ 0x40007414
    → a.dac_dhr8r1 ≡ 0x40007410
    → a.adc1_dr ≡ 0x50000040
    → r dma1_ccr1_en ≡ 0
    → k < 1280
    → hserdy ≢ 0
    → l.IsReady line
    → (start : Scope × List Action) × (boot b landscape font a c (replicate k 0 ++ hserdy ∷ later) r
        ≡ some (ok start))
      × ((line' : l.State) × SendsAll l (sent_by p start.1) line line')
      × ((line' : l.State)
          → SendsAll l (sent_by p start.1) line line'
          → (v : Station l) → Linked l p b landscape font (first_station l gap r start line') v
          → Proceeds l p b font v
            × IsTraced v.machine.world.scope.previous_y (arrived l begin v.line).screen
            × (v.machine.world.scope.state ≡ after → IsComplete v.machine.world))
Linked-IsTraced l p b font begin a c r line k hserdy later gap size e3 e4 e1 idle h on ready =
    let (actions, returns, off, full, _, dark, orderly) =
      (boot-armed b font a c r k later size e3 e4 e1 idle).0 hserdy h on in
    let start : Scope × List Action = (Sweep.start, actions) in
    let d = driver_of p in
    let held = (arrived l begin line).screen in
    let running = first-IsRunning d b font r held gap actions size off full in
    (
      start,
      returns,
      SendsAll-can p l begin actions line orderly ready,
      λ line' sends v path.
          let (ready', shown) = SendsAll-shows p l begin actions line line' orderly ready sends in
          let (ready'', watched) =
            Linked-Arrives l p b font begin size (first_station l gap r start line') v path running
              ready' in
          let from_boot =
            subst
              (λ (s : Screen).
                Watched d b landscape font (record { machine = at_loop gap r start; screen = s })
                  (view l begin v))
              shown watched in
          let runs =
            Run-IsRunning b font size (at_loop gap r start) v.machine
              (Watched-Run d b landscape font _ _ watched) running in
          let (traced, complete) =
            first-IsTraced d b font r held gap actions size off full (dark d held) (view l begin v)
              from_boot in
          (IsRunning-Proceeds l p b font begin size v runs ready'', traced, complete),
    )
