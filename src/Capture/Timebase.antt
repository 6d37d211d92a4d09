-- ===== src/Capture/Timebase.antt =====
-- What `set_timebase` sets the timer to, at every sampling rate and in both builds.
use stm32f3_oscilloscope.Prelude.{
  ℕ, ◌+◌, ◌-◌, ◌*◌, ◌/◌, ◌^◌, ◌≤◌, ◌<◌, ◌≡◌, ◌≢◌, ◌↔◌, refl, ap, inl, inr, ltb, Bool-cases, ltb→lt,
  ltb→le, arith,
}
use stm32f3_oscilloscope.Prelude.Division.{div_bounds, le-div, div-lt}
use stm32f3_oscilloscope.Prelude.Word.{Build, Result, ok}
use stm32f3_oscilloscope.Capture.{timebase_for, timebase_actions, set_timebase}

-- The clock that the prescaled timer counts, in pulses per second.
abbrev pub clock_after : ℕ → ℕ
clock_after psc = 72_000_000 / (psc + 1)

-- A count of pulses rounded down, for the reload value one below it.
period :
    (clock rate arr : ℕ)
    → 0 < rate
    → clock / rate ≡ arr + 1
    → ((arr + 1) * rate ≤ clock) × (clock < (arr + 2) * rate)
period clock rate arr h0 e = omega (arith, div_bounds clock rate h0, ap (λ (t : ℕ). t * rate) e)

module _ (b : Build) (rate : ℕ) where
  fast :
      1097 < rate
      → rate ≤ 72_000_000
      → (72_000_000 / rate ≡ 72_000_000 / rate - 1 + 1)
        × (timebase_for b rate ≡ ok (72_000_000 / rate - 1, 0))
  unfolding timebase_for
  fast h k =
      let one = le-div 72_000_000 rate 1 (omega arith) (omega arith) in (omega arith, ground arith)

  slow :
      0 < rate
      → rate ≤ 1097
      → (32_000 / rate ≡ 32_000 / rate - 1 + 1)
        × (timebase_for b rate ≡ ok (32_000 / rate - 1, 2249))
  unfolding timebase_for
  slow h k =
      let one = le-div 32_000 rate 1 (omega arith) (omega arith) in (omega arith, ground arith)

pub set_timebase-period :
    (b : Build) (rate : ℕ)
    → 0 < rate
    → rate ≤ 72_000_000
    → (arr : ℕ) × (psc : ℕ) × (set_timebase b rate ≡ ok (timebase_actions arr psc))
      × (clock_after psc * (psc + 1) ≡ 72_000_000)
      × ((arr + 1) * rate ≤ clock_after psc)
      × (clock_after psc < (arr + 2) * rate)
unfolding set_timebase
set_timebase-period b rate h0 h = elim (Bool-cases (ltb 1097 rate)) [
  | inl e ↦
      let f = fast b rate (ltb→lt 1097 rate e) h in
      let p = period 72_000_000 rate (72_000_000 / rate - 1) h0 f.0 in
      (72_000_000 / rate - 1, 0, rw (f.1), refl, p.0, p.1)
  | inr e ↦
      let f = slow b rate h0 (ltb→le 1097 rate e) in
      let p = period 32_000 rate (32_000 / rate - 1) h0 f.0 in
      (32_000 / rate - 1, 2249, rw (f.1), refl, p.0, p.1)
]

fast_fits : (rate : ℕ) → 1097 < rate → (72_000_000 / rate - 1 < 2 ^ 16) ↔ (rate ≢ 1098)
fast_fits rate h = (
  λ small e. absurd (omega (arith, le-div 72_000_000 rate 65_573 (omega arith) (omega arith))),
  λ ne.
      let above : 1099 ≤ rate = omega arith in
      omega (arith, div-lt 72_000_000 rate 65_537 (omega arith) (omega arith)),
)

slow_fits : (rate : ℕ) → 0 < rate → 32_000 / rate - 1 < 2 ^ 16
slow_fits rate h = omega (arith, div-lt 32_000 rate 32_001 h (omega arith))

arr_of : (a a' p p' : ℕ) → Result.ok (timebase_actions a p) ≡ ok (timebase_actions a' p') → a ≡ a'
arr_of a a' p p' e = cc

pub set_timebase-fits :
    (b : Build) (rate arr psc : ℕ)
    → 0 < rate
    → rate ≤ 72_000_000
    → set_timebase b rate ≡ ok (timebase_actions arr psc)
    → (arr < 2 ^ 16) ↔ (rate ≢ 1098)
unfolding set_timebase
set_timebase-fits b rate arr psc h0 h e = elim (Bool-cases (ltb 1097 rate)) [
  | inl t ↦
      let f = fast b rate (ltb→lt 1097 rate t) h in
      let same = arr_of (72_000_000 / rate - 1) arr 0 psc (rw (f.1) at e) in
      rw (← same) (fast_fits rate (ltb→lt 1097 rate t))
  | inr t ↦
      let f = slow b rate h0 (ltb→le 1097 rate t) in
      let same = arr_of (32_000 / rate - 1) arr 2249 psc (rw (f.1) at e) in
      (λ small ne. omega (arith, ltb→le 1097 rate t), λ ne. rw (← same) (slow_fits rate h0))
]
