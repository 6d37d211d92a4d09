-- ===== src/World/Trace.antt =====
-- The world at the start of the main loop.
use stm32f3_oscilloscope.Prelude.{
  ℕ, zero, suc, ◌^◌, ◌<◌, ◌≡◌, refl, inr, replicate, length-replicate, All, arith,
}
use stm32f3_oscilloscope.Device.{Registers, dma1_ccr1_en, dma1_cndtr1}
use stm32f3_oscilloscope.Sweep.{start}
use stm32f3_oscilloscope.World.{World}
use stm32f3_oscilloscope.World.Sound.{IsRow, IsSound}

-- The world at the first pass of the main loop.
abbrev pub booted : Registers → World
booted r = record { regs = r; captured = replicate 160 0; scope = start }

pub All-replicate {ℓ κ} :
    {A : Type ℓ} (P : A → Type κ) (n : ℕ) (a : A) → P a → All P (replicate n a)
All-replicate P zero a h = tt
All-replicate P (suc n) a h = (h, All-replicate P n a h)

pub booted-IsSound : (r : Registers) → r dma1_ccr1_en ≡ 0 → r dma1_cndtr1 ≡ 160 → IsSound (booted r)
booted-IsSound r off full = record {
  phase = (off, full);
  columns = length-replicate {A = ℕ} 160 255;
  buffer = length-replicate {A = ℕ} 160 0;
  conversions = All-replicate (λ raw. raw < 2 ^ 12) 160 0 (omega arith);
  rows = All-replicate IsRow 160 255 (inr refl);
  plotted = λ i hi. absurd (omega arith);
  timebase_in_table = omega arith;
  siggen_in_table = omega arith;
}
