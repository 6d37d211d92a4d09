-- ===== src/World/Tests.antt =====
-- A concrete sweep: the first pass, 160 conversions at half scale, and 160 passes.
use stm32f3_oscilloscope.Font.{font_8x12}
use stm32f3_oscilloscope.Font.Distinct.{font_8x12-length}
use stm32f3_oscilloscope.Prelude.{ℕ, zero, suc, ◌-◌, ◌≡◌, refl, ap, ◌++◌, set, replicate, arith}
use stm32f3_oscilloscope.Prelude.Word.{debug, ok}
use stm32f3_oscilloscope.Device.{Registers, run, store, dma1_ccr1_en, dma1_cndtr1}
use stm32f3_oscilloscope.Led.{ld3, led_on}
use stm32f3_oscilloscope.Capture.{begin_sweep}
use stm32f3_oscilloscope.Lcd.{landscape}
use stm32f3_oscilloscope.Sweep.{Scope, during, after, start, sweep, sweep_from}
use stm32f3_oscilloscope.World.{World, pass, hardware, transfer, Reach, here, next}
use stm32f3_oscilloscope.World.Sound.{IsSound}
use stm32f3_oscilloscope.World.Invariant.{Reach-IsSound}
use stm32f3_oscilloscope.World.Trace.{booted, booted-IsSound}
use stm32f3_oscilloscope.World.Progress.{passes, passes-after}

abbrev reset_registers : Registers
reset_registers = store dma1_cndtr1 160 (λ f. 0)

-- The world after the first pass.
abbrev armed : World
armed = record {
  regs = run (begin_sweep ++ led_on ld3) reset_registers;
  captured = replicate 160 0;
  scope = record start { state = during; x_out = 0 };
}

armed-Reach : Reach debug landscape font_8x12 (booted reset_registers) armed
unfolding sweep sweep_from begin_sweep led_on
armed-Reach =
    next here (pass (record start { state = during; x_out = 0 }, begin_sweep ++ led_on ld3) refl)

abbrev converted : World → World
converted w = record w {
  regs = store dma1_cndtr1 (w.regs dma1_cndtr1 - 1) w.regs;
  captured = set w.captured (160 - w.regs dma1_cndtr1) 2048;
}

abbrev converted_times : ℕ → World → World
converted_times zero w = w
converted_times (suc n) w = converted_times n (converted w)

append-Reach :
    (u v w : World)
    → Reach debug landscape font_8x12 u v
    → Reach debug landscape font_8x12 v w
    → Reach debug landscape font_8x12 u w
append-Reach u v _ left here = left
append-Reach u v _ left (next path step) = next (append-Reach u v _ left path) step

-- The rest of a transfer.
transfers-Reach :
    (n : ℕ) (u w : World)
    → Reach debug landscape font_8x12 u w
    → w.regs dma1_ccr1_en ≡ 1
    → w.regs dma1_cndtr1 ≡ n
    → Reach debug landscape font_8x12 u (converted_times n w)
      × (converted_times n w).regs dma1_cndtr1 ≡ 0
      × ((converted_times n w).scope ≡ w.scope)
transfers-Reach zero u w path on left = (path, left, refl)
transfers-Reach (suc n) u w path on left =
    transfers-Reach n u (converted w)
      (next path (hardware (transfer 2048 on (omega arith) (omega arith)))) on (omega arith)

abbrev filled : World
filled = converted_times 160 armed

filled_facts :
    Reach debug landscape font_8x12 (booted reset_registers) filled
    × filled.regs dma1_cndtr1 ≡ 0
    × (filled.scope ≡ armed.scope)
unfolding begin_sweep led_on
filled_facts = transfers-Reach 160 (booted reset_registers) armed armed-Reach refl refl

filled-IsSound : IsSound filled
filled-IsSound =
    Reach-IsSound debug font_8x12 font_8x12-length (booted reset_registers) filled filled_facts.0
      (booted-IsSound reset_registers refl refl)

filled_state : filled.scope.state ≡ during
filled_state = ap (λ (s : Scope). s.state) filled_facts.2

passes-after_example :
    (w' : World) × (passes debug landscape font_8x12 (160 - filled.scope.x_out) filled ≡ ok w')
    × (w'.scope.state ≡ after)
passes-after_example =
    passes-after debug font_8x12 font_8x12-length filled filled-IsSound filled_state filled_facts.1
