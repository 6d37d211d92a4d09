-- ===== src/Program/Tests.antt =====
-- The program from its reset, with the addresses of the chip and the font, and its
-- first round.
use stm32f3_oscilloscope.Font.{font_8x12}
use stm32f3_oscilloscope.Font.Distinct.{font_8x12-length}
use stm32f3_oscilloscope.Prelude.{
  ℕ, ◌+◌, ◌%◌, length, ◌<◌, ◌^◌, ◌⊎◌, get_or, ◌≡◌, true, refl, List, [], ◌∷◌, ◌++◌, replicate,
  length-replicate, some, arith,
}
use stm32f3_oscilloscope.Prelude.Word.{debug, ok}
use stm32f3_oscilloscope.Device.{store, Action, Addresses, Registers, dma1_cndtr1}
use stm32f3_oscilloscope.Lcd.{landscape}
use stm32f3_oscilloscope.Interrupts.{Shared, ticks}
use stm32f3_oscilloscope.Sweep.{Scope, after, sweep}
use stm32f3_oscilloscope.Controls.{Gaps, iterate, next_timebase, next_siggen_freq}
use stm32f3_oscilloscope.Settings.{siggen_frequencies, timebase_intervals}
use stm32f3_oscilloscope.Boot.Start.{hardware, boot}
use stm32f3_oscilloscope.Program.{Machine, Run, at_loop}
use stm32f3_oscilloscope.Program.Safety.{Completes, Agrees, Run-returns}
use stm32f3_oscilloscope.Screen.Panel.{panel, dark_screen}
use stm32f3_oscilloscope.World.Picture.{Picture, Draws, IsTraced}
use stm32f3_oscilloscope.World.Picture.Samples.{sweep-shows}
use stm32f3_oscilloscope.Program.Display.{IsDark-IsTraced}
use stm32f3_oscilloscope.Spi.Link.{SendsAll}
use stm32f3_oscilloscope.Spi.Fifo.{Fifo}
use stm32f3_oscilloscope.Spi.Fifo.Delivery.{fifo_link}
use stm32f3_oscilloscope.Screen.Controller.{Controller, Mode, sent_by}
use stm32f3_oscilloscope.Screen.Controller.Arrival.{arrived}
use stm32f3_oscilloscope.Screen.Controller.Plain.{plain}
use stm32f3_oscilloscope.Program.Linked.{Station, Linked}
use stm32f3_oscilloscope.Program.Arrival.{Proceeds, first_station, Linked-IsTraced}
use stm32f3_oscilloscope.Program.Invariant.{IsRunning}
use stm32f3_oscilloscope.Program.Serving.{StaysLow, iterate-serves}
use stm32f3_oscilloscope.Controls.Marks.{ticks-length}
use stm32f3_oscilloscope.Interrupts
use stm32f3_oscilloscope.World.Sound.{IsComplete}
use stm32f3_oscilloscope.World.Trace.{All-replicate, booted-IsSound}
use stm32f3_oscilloscope.Sweep.Plot.{plotted_row}
use stm32f3_oscilloscope.Screen.Aside.{white_code}
use stm32f3_oscilloscope.Sweep

abbrev linked : Addresses
linked = record {
  dac_dhr12r2 = 0x4000_7414;
  dac_dhr8r1 = 0x4000_7410;
  adc1_dr = 0x5000_0040;
  sine_12bit = 0x0800_0200;
  ramp_8bit = 0x0800_0400;
  capture_channel_1 = 0x2000_0000;
}

abbrev reset_state : Registers
reset_state f = 0

-- A tick that reads every button pressed.
abbrev pressed : List ℕ
pressed = 0 ∷ []

Run-returns_example :
    (begin : Scope × List Action) × (boot debug landscape font_8x12 linked hardware
        (replicate 2 0 ++ 1 ∷ [])
        reset_state
      ≡ some (ok begin))
    × ((m : Machine)
        → Run debug landscape font_8x12 (at_loop pressed reset_state begin) m
        → Completes debug font_8x12 m × Agrees m.world.scope.state m)
Run-returns_example =
    Run-returns debug font_8x12 linked hardware reset_state 2 1 [] pressed font_8x12-length refl
      refl refl refl (omega arith) (omega arith)

-- The machine at its first round, from a counter that is full.
abbrev ready : Machine
ready = at_loop pressed (store dma1_cndtr1 160 reset_state) (Sweep.start, [])

ready-IsRunning : IsRunning ready
ready-IsRunning = record {
  sound = booted-IsSound (store dma1_cndtr1 160 reset_state) refl refl;
  four = ticks-length pressed Interrupts.start;
}

-- A tick that finds every button pressed comes in the sweep, and another between the buttons.
abbrev interrupted : Gaps
interrupted = record {
  in_sweep = 0 ∷ [];
  first = [];
  first' = [];
  between = 0 ∷ [];
  second = [];
  second' = [];
}

-- The same with every button released.
abbrev fresh : Machine
fresh = record ready { shared = Interrupts.start }

fresh-IsRunning : IsRunning fresh
fresh-IsRunning = record { sound = ready-IsRunning.sound; four = refl }

interrupted-StaysLow : StaysLow 0 interrupted × StaysLow 3 interrupted
interrupted-StaysLow = (
  record {
    in_sweep = (refl, tt);
    first = tt;
    first' = tt;
    between = (refl, tt);
    second = tt;
    second' = tt;
  },
  record {
    in_sweep = (refl, tt);
    first = tt;
    first' = tt;
    between = (refl, tt);
    second = tt;
    second' = tt;
  },
)

iterate-serves_example :
    (swept : Scope × List Action) × (timed : Scope × List Action) × (tuned : Scope × List Action)
    × (shared : Shared) × (sweep debug landscape font_8x12 fresh.world.regs fresh.world.captured
          fresh.world.scope
        ≡ ok swept)
    × (next_timebase debug landscape font_8x12 swept.0 ≡ ok timed)
    × (next_siggen_freq debug landscape font_8x12 timed.0 ≡ ok tuned)
    × (iterate debug landscape font_8x12 interrupted fresh.world.regs fresh.world.captured
          (ticks pressed fresh.shared)
          fresh.world.scope
        ≡ ok (shared, tuned.0, swept.1 ++ (timed.1 ++ tuned.1)))
    × (tuned.0.timebase_index ≡ (fresh.world.scope.timebase_index + 1) % length timebase_intervals)
    × (tuned.0.siggen_freq_index
        ≡ (fresh.world.scope.siggen_freq_index + 1) % length siggen_frequencies)
    × (swept' : Scope × List Action) × (shared' : Shared) × (sweep debug landscape font_8x12
          ready.world.regs ready.world.captured ready.world.scope
        ≡ ok swept')
    × (iterate debug landscape font_8x12 interrupted ready.world.regs ready.world.captured
          (ticks pressed shared)
          ready.world.scope
        ≡ ok (shared', swept'.0, swept'.1))
iterate-serves_example =
    iterate-serves debug font_8x12 font_8x12-length fresh 0 [] interrupted pressed ready.world
      interrupted fresh-IsRunning (refl, refl) (refl, refl) (refl, tt) (refl, tt)
      interrupted-StaysLow.0 interrupted-StaysLow.1 (refl, tt) (refl, tt) ready-IsRunning.sound
      interrupted-StaysLow.0 interrupted-StaysLow.1

-- The transmit buffer is empty, and the controller is on.
abbrev empty : Fifo
empty = record { dc = true; queue = []; received = [] }

abbrev on : Controller
on = record { mode = Mode.other; screen = dark_screen }

Linked-IsTraced_example :
    (start : Scope × List Action) × (boot debug landscape font_8x12 linked hardware
        (replicate 2 0 ++ 1 ∷ [])
        reset_state
      ≡ some (ok start))
    × ((line : Fifo) × SendsAll fifo_link (sent_by plain start.1) empty line)
    × ((line : Fifo)
        → SendsAll fifo_link (sent_by plain start.1) empty line
        → (v : Station fifo_link)
        → Linked fifo_link plain debug landscape font_8x12
            (first_station fifo_link pressed reset_state start line)
            v
        → Proceeds fifo_link plain debug font_8x12 v
          × IsTraced v.machine.world.scope.previous_y (arrived fifo_link on v.line).screen
          × (v.machine.world.scope.state ≡ after → IsComplete v.machine.world))
Linked-IsTraced_example =
    Linked-IsTraced fifo_link plain debug font_8x12 on linked hardware reset_state empty 2 1 []
      pressed font_8x12-length refl refl refl refl (omega arith) (omega arith) tt

-- The display is dark, and 160 samples at half of the full scale come in.
abbrev first_picture : Picture
first_picture = record { world = ready.world; screen = dark_screen }

abbrev half_scale : List ℕ
half_scale = replicate 160 2048

sweep-shows_example :
    (v : Picture) × Draws panel debug landscape font_8x12 first_picture v
    × (v.world.scope.state ≡ after)
    × ((i j : ℕ)
        → i < 160
        → j < 128
        → v.screen.frame i j ≡ white_code
        → plotted_row (get_or half_scale i 0) ≡ j)
    × ((i : ℕ)
        → i < 160
        → let row = plotted_row (get_or half_scale i 0) in
          row < 104
          → (v.screen.frame i row ≡ white_code) ⊎ ((row ≡ 0) × (v.screen.frame i 0 ≡ 0xf800)))
sweep-shows_example =
    sweep-shows panel debug font_8x12 font_8x12-length first_picture half_scale
      (record {
        sound = ready-IsRunning.sound;
        traced = IsDark-IsTraced dark_screen (λ i j hi hj e. omega arith);
      })
      refl (length-replicate {A = ℕ} 160 2048)
      (All-replicate (λ sample. sample < 2 ^ 12) 160 2048 (omega arith))
