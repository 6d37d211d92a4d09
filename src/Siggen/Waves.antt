-- ===== src/Siggen/Waves.antt =====
-- The shapes of the wave tables.
use stm32f3_oscilloscope.Prelude.{
  ℕ, ◌+◌, ◌*◌, ◌/◌, ◌%◌, ◌^◌, ◌<◌, ◌≡◌, refl, Bool, true, ltb, ◌==◌, get_or, length, ==→≡, ltb→lt,
  if◌then◌else◌,
}
use stm32f3_oscilloscope.Prelude.Bits.{all_below, all_below_sound}
use stm32f3_oscilloscope.Siggen.Tables.{sine_12bit, ramp_8bit}

abbrev mirror : ℕ → ℕ
mirror i = get_or sine_12bit i 0 + get_or sine_12bit ((i + 72) % 144) 0

abbrev middle : ℕ → ℕ
middle i = if i % 72 == 60 then 4095 else 4094

mirror_table : all_below 144 (λ i. mirror i == middle i) ≡ true
mirror_table = refl

width_table : all_below 144 (λ i. ltb (get_or sine_12bit i 0) (2 ^ 12)) ≡ true
width_table = refl

-- The sine table has 144 entries, each fits the 12 bits of the converter, and entries half a period
-- apart mirror one another about the middle, but for the one pair that is off by one.
pub sine_12bit-symmetric :
    (length sine_12bit ≡ 144)
    × ((i : ℕ) → i < 144 → (get_or sine_12bit i 0 < 2 ^ 12) × (mirror i ≡ middle i))
sine_12bit-symmetric = (
  refl,
  λ i h. (
    ltb→lt (get_or sine_12bit i 0) (2 ^ 12)
        (all_below_sound 144 (λ i. ltb (get_or sine_12bit i 0) (2 ^ 12)) i width_table h),
    ==→≡ (mirror i) (middle i) (all_below_sound 144 (λ i. mirror i == middle i) i mirror_table h),
  ),
)

abbrev ramp_ok : ℕ → Bool
ramp_ok i = get_or ramp_8bit i 0 == (510 * i + 143) / 286

ramp_table : all_below 144 ramp_ok ≡ true
ramp_table = refl

-- The ramp table has 144 entries, and entry `i` is 255 * i / 143 rounded to the nearest.
pub ramp_8bit-linear :
    (length ramp_8bit ≡ 144) × ((i : ℕ) → i < 144 → get_or ramp_8bit i 0 ≡ (510 * i + 143) / 286)
ramp_8bit-linear = (
  refl,
  λ i h.
      ==→≡ (get_or ramp_8bit i 0) ((510 * i + 143) / 286)
        (all_below_sound 144 ramp_ok i ramp_table h),
)
