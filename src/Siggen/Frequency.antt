-- ===== src/Siggen/Frequency.antt =====
-- What `siggen_set_freq` sets the timer to, at every frequency and in both builds.
use stm32f3_oscilloscope.Prelude.{
  ℕ, ◌+◌, ◌-◌, ◌*◌, ◌/◌, ◌^◌, ◌≤◌, ◌<◌, ◌≡◌, refl, ap, [], ◌∷◌, arith,
}
use stm32f3_oscilloscope.Prelude.Word.{Build, debug, release, ok, panic}
use stm32f3_oscilloscope.Prelude.Division.{div_bounds, le-div, div-lt}
use stm32f3_oscilloscope.Device.{write, tim2_arr}
use stm32f3_oscilloscope.Siggen.{siggen_set_freq}

scale :
    (last freq q : ℕ)
    → q ≡ last + 1
    → (q * freq ≤ 250_000) × (250_000 < (q + 1) * freq)
    → ((last + 1) * 144 * freq ≤ 36_000_000) × (36_000_000 < (last + 2) * 144 * freq)
scale last freq q e h = omega (arith, ap (λ (t : ℕ). t * freq) e)

-- From 1 Hz to 125 kHz, with TIM2 counting 36,000,000 times a second as the code has it:
-- `siggen_set_freq` returns in both builds, and the period set, of `arr + 1` counts for each of 144
-- samples, is the longest in whole counts that is no longer than asked, and fits 32 bits. What TIM2
-- is clocked at is no part of this.
pub siggen_set_freq-nearest :
    (b : Build) (freq : ℕ)
    → 0 < freq
    → freq ≤ 125_000
    → (arr : ℕ) × (siggen_set_freq b freq ≡ ok (write ((tim2_arr, arr) ∷ []) ∷ []))
      × ((arr + 1) * 144 * freq ≤ 36_000_000)
      × (36_000_000 < (arr + 2) * 144 * freq)
      × (arr < 2 ^ 32)
unfolding siggen_set_freq
siggen_set_freq-nearest b freq h0 h =
    let bounds = div_bounds 250_000 freq h0 in
    let two = le-div 250_000 freq 2 h0 (omega arith) in
    let last : ℕ = 250_000 / freq - 1 in
    (
      last,
      ground arith,
      (scale last freq (250_000 / freq) (omega arith) bounds).0,
      (scale last freq (250_000 / freq) (omega arith) bounds).1,
      ground (arith, div-lt 250_000 freq 250_001 h0 (omega arith)),
    )

-- Outside that range: 0 panics, up to 250 kHz the shortest period is set, and above it the
-- subtraction underflows, which panics in a debug build and sets the longest period in a release
-- build.
pub siggen_set_freq-extremes :
    (b : Build)
    → (siggen_set_freq b 0 ≡ panic)
      × ((freq : ℕ)
          → 125_000 < freq
          → freq ≤ 250_000
          → siggen_set_freq b freq ≡ ok (write ((tim2_arr, 1) ∷ []) ∷ []))
      × ((freq : ℕ) → 250_000 < freq → siggen_set_freq debug freq ≡ panic)
      × ((freq : ℕ)
          → 250_000 < freq
          → siggen_set_freq release freq ≡ ok (write ((tim2_arr, 2 ^ 32 - 1) ∷ []) ∷ []))
unfolding siggen_set_freq
siggen_set_freq-extremes b = (
  refl,
  λ freq above below. ground (
    arith,
    le-div 250_000 freq 1 (omega arith) (omega arith),
    div-lt 250_000 freq 2 (omega arith) (omega arith),
  ),
  λ freq above. ground (arith, div-lt 250_000 freq 1 (omega arith) (omega arith)),
  λ freq above. ground (arith, div-lt 250_000 freq 1 (omega arith) (omega arith)),
)
