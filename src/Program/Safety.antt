-- ===== src/Program/Safety.antt =====
-- The main loop of main.rs after its start, whatever interrupts it.
use stm32f3_oscilloscope.Prelude.{
  ℕ, ◌+◌, ◌≤◌, ◌<◌, ◌≡◌, ◌≢◌, refl, List, ◌∷◌, ◌++◌, length, get_or, some, replicate, arith,
}
use stm32f3_oscilloscope.Prelude.Word.{Build, ok}
use stm32f3_oscilloscope.Device.{Action, Addresses, Registers, run, dma1_ccr1_en, dma1_cndtr1}
use stm32f3_oscilloscope.Lcd.{landscape}
use stm32f3_oscilloscope.Interrupts
use stm32f3_oscilloscope.Interrupts.{Shared}
use stm32f3_oscilloscope.Sweep
use stm32f3_oscilloscope.Sweep.{SweepState, before, during, after, Scope, sweep}
use stm32f3_oscilloscope.Sweep.Plot.{plotted_row}
use stm32f3_oscilloscope.Controls.{check_button, next_timebase, next_siggen_freq}
use stm32f3_oscilloscope.Controls.Marks.{ticks-length}
use stm32f3_oscilloscope.World.Sound.{phase_at}
use stm32f3_oscilloscope.World.Pass.{sweep-Passes}
use stm32f3_oscilloscope.World.Trace.{booted-IsSound}
use stm32f3_oscilloscope.Boot.Start.{Connection, boot}
use stm32f3_oscilloscope.Boot.Started.{boot-armed}
use stm32f3_oscilloscope.Program.{Machine, Run, at_loop}
use stm32f3_oscilloscope.Program.Invariant.{IsRunning, Run-IsRunning, first_check, second_check}

-- That each part of a round returns, with any ticks in the middle of the checks.
abbrev pub Completes : Build → List ℕ → Machine → Type 0
Completes b font m =
    ((out : Scope × List Action) × (sweep b landscape font m.world.regs m.world.captured
          m.world.scope
        ≡ ok out))
    × ((gap gap' : List ℕ)
        → (end : Shared × Scope × List Action) × (check_button 0 gap gap'
              (next_timebase b landscape font) m.shared m.world.scope
            ≡ ok end))
    × ((gap gap' : List ℕ)
        → (end : Shared × Scope × List Action) × (check_button 3 gap gap'
              (next_siggen_freq b landscape font) m.shared m.world.scope
            ≡ ok end))

-- That the first `n` columns remember the row of the conversion captured for them.
abbrev pub Remembers : ℕ → Machine → Type 0
Remembers n m =
    (i : ℕ)
    → i < n
    → get_or m.world.scope.previous_y i 0 ≡ plotted_row (get_or m.world.captured i 0)

-- The capture's channel and the rows that are remembered, in each state of the sweep.
abbrev pub Agrees : SweepState → Machine → Type 0
Agrees before m = (m.world.regs dma1_ccr1_en ≡ 0) × (m.world.regs dma1_cndtr1 ≡ 160)
Agrees during m =
    (m.world.regs dma1_ccr1_en ≡ 1)
    × (m.world.scope.x_out + m.world.regs dma1_cndtr1 ≤ 160)
    × Remembers m.world.scope.x_out m
Agrees after m = (m.world.regs dma1_cndtr1 ≡ 0) × Remembers 160 m

pub IsRunning-Completes :
    (b : Build) (font : List ℕ) (m : Machine)
    → length font ≡ 1536
    → IsRunning m
    → Completes b font m
IsRunning-Completes b font m size v =
    let (out, returns, _) = sweep-Passes b font size m.world v.sound in
    (
      (out, returns),
      λ gap gap'.
          let (shared, out, checks, _) = first_check b font size m gap gap' v in
          ((shared, out.0, out.1), checks),
      λ gap gap'.
          let (shared, out, checks, _) = second_check b font size m gap gap' v in
          ((shared, out.0, out.1), checks),
    )

IsRunning-Agrees :
    (m : Machine) (st : SweepState) → m.world.scope.state ≡ st → IsRunning m → Agrees st m
IsRunning-Agrees m before e v = phase_at m.world before e v.sound
IsRunning-Agrees m during e v =
    let (on, inside, behind) = phase_at m.world during e v.sound in
    (on, behind, λ i h. v.sound.plotted i h (omega arith))
IsRunning-Agrees m after e v =
    let (_, empty, last) = phase_at m.world after e v.sound in
    (empty, λ i h. v.sound.plotted i (omega arith) h)

-- With the DMA channel of the capture disabled at reset, the data registers at the addresses that
-- the code asserts, a font of 1,536 bytes, either form of the connection to the display, and the
-- external clock ready within 1,279 further reads: `main` gets to its loop in both builds, and from
-- there, whatever ticks have come and whatever the order of the loop's parts, the interrupt
-- handlers, the transfers and the other changes of the registers, each part of a round returns
-- without a panic, and the channel is disabled with a full counter in the state `before`, enabled
-- and not behind the columns passed in `during`, and done in `after`; for the columns passed in
-- `during`, and for all 160 in `after`, the variable `previous_y` has the row of the conversion
-- captured for them. What the display shows is no part of this.
pub Run-returns :
    (b : Build) (font : List ℕ) (a : Addresses) (c : Connection) (r : Registers) (k hserdy : ℕ)
    (later gap : List ℕ)
    → length font ≡ 1536
    → a.dac_dhr12r2 ≡ 0x40007414
    → a.dac_dhr8r1 ≡ 0x40007410
    → a.adc1_dr ≡ 0x50000040
    → r dma1_ccr1_en ≡ 0
    → k < 1280
    → hserdy ≢ 0
    → (begin : Scope × List Action) × (boot b landscape font a c (replicate k 0 ++ hserdy ∷ later) r
        ≡ some (ok begin))
      × ((m : Machine)
          → Run b landscape font (at_loop gap r begin) m
          → Completes b font m × Agrees m.world.scope.state m)
Run-returns b font a c r k hserdy later gap size e3 e4 e1 idle h on =
    let (actions, returns, off, full, _, _, _) =
      (boot-armed b font a c r k later size e3 e4 e1 idle).0 hserdy h on in
    let loop = at_loop gap r (Sweep.start, actions) in
    let first : IsRunning loop = record {
      sound = booted-IsSound (run actions r) off full;
      four = ticks-length gap Interrupts.start;
    } in
    (
      (Sweep.start, actions),
      returns,
      λ m path.
          let v = Run-IsRunning b font size loop m path first in
          (IsRunning-Completes b font m size v, IsRunning-Agrees m m.world.scope.state refl v),
    )
