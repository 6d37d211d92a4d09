-- ===== src/Program.antt =====
-- The whole program: the start of `main`, and then the parts of its loop with the two interrupt
-- handlers and the hardware in between, in any order.
pub mod Invariant
pub mod Round
pub mod Serving
pub mod Safety
pub mod Watch
pub mod Linked
pub mod Display
pub mod Arrival
mod Tests
use stm32f3_oscilloscope.Prelude.{ℕ, ◌≡◌, List, replicate, Option, some}
use stm32f3_oscilloscope.Prelude.Word.{Build, ok}
use stm32f3_oscilloscope.Device.{Action, Addresses, Registers, run}
use stm32f3_oscilloscope.Lcd.{Panel}
use stm32f3_oscilloscope.Interrupts.{Shared, systick_handler, dma1ch1_interrupt_handler, ticks}
use stm32f3_oscilloscope.Interrupts
use stm32f3_oscilloscope.Sweep.{Scope, sweep}
use stm32f3_oscilloscope.Controls.{check_button, next_timebase, next_siggen_freq}
use stm32f3_oscilloscope.World.{World, after_actions, Hardware}

pub record Machine : Type 0 where
  pub shared : Shared
  pub world : World

-- `swept`, `checked_1` and `checked_4` are the three parts of a round of the main loop, `tick` and
-- `capture_done` are the interrupt handlers, and `hardware` is everything else. The ticks of `gap`
-- and `gap'` come in the middle of a check.
pub data Event (b : Build) (p : Panel) (font : List ℕ) (m : Machine) : Machine → Type 0 where
  swept :
      (out : Scope × List Action)
      → sweep b p font m.world.regs m.world.captured m.world.scope ≡ ok out
      → Event b p font m (record m { world = after_actions m.world out })
  checked_1 :
      (gap gap' : List ℕ) (shared : Shared) (out : Scope × List Action)
      → check_button 0 gap gap' (next_timebase b p font) m.shared m.world.scope
        ≡ ok (shared, out.0, out.1)
      → Event b p font m (record { shared = shared; world = after_actions m.world out })
  checked_4 :
      (gap gap' : List ℕ) (shared : Shared) (out : Scope × List Action)
      → check_button 3 gap gap' (next_siggen_freq b p font) m.shared m.world.scope
        ≡ ok (shared, out.0, out.1)
      → Event b p font m (record { shared = shared; world = after_actions m.world out })
  tick : (idr : ℕ) → Event b p font m (record m { shared = systick_handler idr m.shared })
  capture_done :
      Event b p font m
        (record m { world = record m.world { regs = run dma1ch1_interrupt_handler m.world.regs } })
  hardware : {w : World} → Hardware m.world w → Event b p font m (record m { world = w })

pub data Run (b : Build) (p : Panel) (font : List ℕ) (m : Machine) : Machine → Type 0 where
  here : Run b p font m m
  next : {u v : Machine} → Run b p font m u → Event b p font u v → Run b p font m v

-- The machine at the first round: `gap` is what the ticks have read until then.
abbrev pub at_loop : List ℕ → Registers → Scope × List Action → Machine
at_loop gap r (s, actions) = record {
  shared = ticks gap Interrupts.start;
  world = record { regs = run actions r; captured = replicate 160 0; scope = s };
}
