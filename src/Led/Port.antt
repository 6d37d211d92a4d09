-- ===== src/Led/Port.antt =====
-- The port that the LEDs hang on, as the reference manual describes it: a parameter of the laws.
use stm32f3_oscilloscope.Prelude.{ℕ, ◌+◌, ◌<◌, ◌≡◌, List, [], ◌∷◌, ◌==◌, if◌then◌else◌}
use stm32f3_oscilloscope.Prelude.Bits.{bit}
use stm32f3_oscilloscope.Device.{Field, Action, modify, write, gpioe_bsrr}

-- A write to the bit set and reset register sets the outputs whose set bit is 1, clears those whose
-- reset bit alone is 1, and leaves the others.
pub record Gpio : Type 1 where
  pub Port : Type 0
  pub odr : Port → ℕ
  pub bsrr : ℕ → Port → Port
  pub bsrr_bit :
      (v i : ℕ) (p : Port)
      → i < 16
      → bit (odr (bsrr v p)) i
        ≡ (if bit v i == 1 then 1 else if bit v (i + 16) == 1 then 0 else bit (odr p) i)

module _ (g : Gpio) where
  open g use {Port, odr, bsrr, bsrr_bit}

  abbrev drive_field : Field → ℕ → Port → Port
  drive_field gpioe_bsrr v p = bsrr v p
  drive_field _ v p = p

  abbrev drive_fields : List (Field × ℕ) → Port → Port
  drive_fields [] p = p
  drive_fields ((f, v) ∷ fs) p = drive_fields fs (drive_field f v p)

  -- The port after a sequence of accesses.
  abbrev pub drive : List Action → Port → Port
  drive [] p = p
  drive (modify fs ∷ later) p = drive later (drive_fields fs p)
  drive (write fs ∷ later) p = drive later (drive_fields fs p)
  drive (a ∷ later) p = drive later p
