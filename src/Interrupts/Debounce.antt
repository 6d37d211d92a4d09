-- ===== src/Interrupts/Debounce.antt =====
-- The debouncing of a pushbutton, over any sequence of ticks.
use stm32f3_oscilloscope.Prelude.{
  ℕ, zero, suc, ◌+◌, ◌-◌, ◌≤◌, ◌<◌, ◌≡◌, refl, ◌∙◌, ◌*◌, ◌⊎◌, inl, inr, Bool, true, false, List, [],
  ◌∷◌, length, replicate, arith,
}
use stm32f3_oscilloscope.Interrupts.{Button, poll_button}

-- One button over the levels that its pin shows at a sequence of ticks.
unfoldable pub poll_times : List Bool → Button → Button
poll_times [] b = b
poll_times (low ∷ later) b = poll_times later (poll_button low b)

-- While the counter runs, the readings change neither the button's state nor the mark of a change.
poll_times-ignored :
    (levels : List Bool) (b : Button)
    → length levels ≤ b.debounce
    → poll_times levels b ≡ record b { debounce = b.debounce - length levels }
unfolding poll_times poll_button
poll_times-ignored [] b h = ground arith
poll_times-ignored (low ∷ later) b h =
    let waits : poll_button low b ≡ record b { debounce = b.debounce - 1 } = ground arith in
    rw waits (
      poll_times-ignored later (record b { debounce = b.debounce - 1 }) (omega arith)
      ∙ ground arith)

poll_times-kept :
    (low : Bool) (n : ℕ) (b : Button) → b.state ≡ low → (poll_times (replicate n low) b).state ≡ low
unfolding poll_times
poll_times-kept low zero b h = h
poll_times-kept low (suc n) b h = poll_times-kept low n (poll_button low b) kept
  where
    kept : (poll_button low b).state ≡ low
    kept = unfold poll_button in ground arith

poll_button-settles :
    (low : Bool) (b : Button)
    → (b.debounce ≡ 0) × ((poll_button low b).state ≡ low)
      ⊎ ((poll_button low b).debounce + 1 ≡ b.debounce)
unfolding poll_button
poll_button-settles low b = ground arith

-- A level that is read at more ticks in a row than the counter has to run becomes the button's
-- state, whatever the state was.
pub poll_times-settled :
    (low : Bool) (n : ℕ) (b : Button)
    → b.debounce < n
    → (poll_times (replicate n low) b).state ≡ low
unfolding poll_times
poll_times-settled low zero b h = absurd (omega arith)
poll_times-settled low (suc n) b h = elim (poll_button-settles low b) [
  | inl (ran, now) ↦ poll_times-kept low n (poll_button low b) now
  | inr falls ↦ poll_times-settled low n (poll_button low b) (omega arith)
]

-- How many of the ticks change the button's state.
abbrev differ : Bool → Bool → ℕ
differ true true = 0
differ true false = 1
differ false true = 1
differ false false = 0

pub flips : List Bool → Button → ℕ
flips [] b = 0
flips (low ∷ later) b = differ b.state (poll_button low b).state + flips later (poll_button low b)

poll_button-flip :
    (low : Bool) (b : Button)
    → b.debounce ≤ 100
    → ((poll_button low b).debounce ≤ 100)
      × (101 * differ b.state (poll_button low b).state + b.debounce
          ≤ (poll_button low b).debounce + 1)
unfolding poll_button
poll_button-flip low b h = ground arith

-- From a counter of at most 100, a bouncing contact is followed at most once in 101 ticks: of `n`
-- ticks, at most (n + 100) / 101 change the state, and fewer if the counter still runs at the
-- start.
pub flips-le :
    (levels : List Bool) (b : Button)
    → b.debounce ≤ 100
    → 101 * flips levels b + b.debounce ≤ length levels + 100
unfolding flips
flips-le [] b h = omega arith
flips-le (low ∷ later) b h =
    let step = poll_button-flip low b h in omega (arith, flips-le later (poll_button low b) step.0)

poll_button-marks :
    (low : Bool) (b : Button)
    → ((poll_button low b).changed ≡ true)
      ⊎ ((poll_button low b).changed ≡ b.changed) × ((poll_button low b).state ≡ b.state)
unfolding poll_button
poll_button-marks low b = ground arith

poll_button-keeps_mark :
    (low : Bool) (b : Button) → b.changed ≡ true → (poll_button low b).changed ≡ true
unfolding poll_button
poll_button-keeps_mark low b h = ground arith

poll_times-keeps_mark :
    (levels : List Bool) (b : Button) → b.changed ≡ true → (poll_times levels b).changed ≡ true
unfolding poll_times
poll_times-keeps_mark [] b h = h
poll_times-keeps_mark (low ∷ later) b h =
    poll_times-keeps_mark later (poll_button low b) (poll_button-keeps_mark low b h)

-- No change is missed: over any ticks, a mark once set stays, and if the button is not marked at
-- the end then its state is that of the start.
pub poll_times-marked :
    (levels : List Bool) (b : Button)
    → (b.changed ≡ true → (poll_times levels b).changed ≡ true)
      × ((poll_times levels b).changed ≡ false → (poll_times levels b).state ≡ b.state)
unfolding poll_times
poll_times-marked [] b = (λ h. h, λ h. refl)
poll_times-marked (low ∷ later) b = (
  poll_times-keeps_mark (low ∷ later) b,
  λ h. elim (poll_button-marks low b) [
    | inl marked ↦ cc (poll_times-keeps_mark later (poll_button low b) marked)
    | inr (same, state) ↦ (poll_times-marked later (poll_button low b)).1 h ∙ state
  ],
)
