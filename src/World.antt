-- ===== src/World.antt =====
-- The sweep and the hardware together: the main loop's steps, with those of the DMA channel and of
-- everything else in between, in any order.
pub mod Frame
pub mod Sound
pub mod Pass
pub mod Invariant
pub mod Trace
pub mod Progress
pub mod Picture
mod Tests
use stm32f3_oscilloscope.Prelude.{ℕ, ◌-◌, ◌^◌, ◌<◌, ◌≡◌, List, set}
use stm32f3_oscilloscope.Prelude.Word.{Build, ok}
use stm32f3_oscilloscope.Device.{Action, Registers, run, store, dma1_ccr1_en, dma1_cndtr1}
use stm32f3_oscilloscope.Lcd.{Panel}
use stm32f3_oscilloscope.Sweep.{Scope, sweep}
use stm32f3_oscilloscope.Controls.{next_timebase, next_siggen_freq}

-- The registers, `CAPTURE_CHANNEL_1`, and the variables of the main loop.
pub record World : Type 0 where
  pub regs : Registers
  pub captured : List ℕ
  pub scope : Scope

-- The world after the program's actions.
abbrev pub after_actions : World → Scope × List Action → World
after_actions w (s, actions) = record w { regs = run actions w.regs; scope = s }

-- What the hardware does by itself. `transfer` is the DMA channel, which while it is enabled with
-- items to go stores a conversion of 12 bits and counts down, and `other` is any change of the
-- registers that leaves the channel alone.
pub data Hardware (w : World) : World → Type 0 where
  transfer :
      (conversion : ℕ)
      → w.regs dma1_ccr1_en ≡ 1
      → 0 < w.regs dma1_cndtr1
      → conversion < 2 ^ 12
      → Hardware w (record w {
        regs = store dma1_cndtr1 (w.regs dma1_cndtr1 - 1) w.regs;
        captured = set w.captured (160 - w.regs dma1_cndtr1) conversion;
      })
  other :
      (r : Registers)
      → r dma1_ccr1_en ≡ w.regs dma1_ccr1_en
      → r dma1_cndtr1 ≡ w.regs dma1_cndtr1
      → Hardware w (record w { regs = r })

-- The steps of the main loop, and those of the hardware in between.
pub data Step (b : Build) (p : Panel) (font : List ℕ) (w : World) : World → Type 0 where
  pass :
      (out : Scope × List Action)
      → sweep b p font w.regs w.captured w.scope ≡ ok out
      → Step b p font w (after_actions w out)
  timebase :
      (out : Scope × List Action)
      → next_timebase b p font w.scope ≡ ok out
      → Step b p font w (after_actions w out)
  siggen :
      (out : Scope × List Action)
      → next_siggen_freq b p font w.scope ≡ ok out
      → Step b p font w (after_actions w out)
  hardware : {w' : World} → Hardware w w' → Step b p font w w'

pub data Reach (b : Build) (p : Panel) (font : List ℕ) (w : World) : World → Type 0 where
  here : Reach b p font w w
  next : {u v : World} → Reach b p font w u → Step b p font u v → Reach b p font w v
