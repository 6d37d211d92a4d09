-- ===== src/Interrupts/Delay.antt =====
-- The wait of `delay_ms` in main.rs, among the ticks.
use stm32f3_oscilloscope.Prelude.{
  ℕ, ◌+◌, ◌-◌, ◌≤◌, ◌<◌, ◌≡◌, refl, ap, inl, inr, List, [], ◌∷◌, ◌++◌, Option, some, length, ◌==◌,
  ==→≡, ==→≢, Bool-cases, arith,
}
use stm32f3_oscilloscope.Interrupts.{Shared, systick_handler, ticks, wait_delay, delay_ms}

abbrev pub count : List (List ℕ) → ℕ
count [] = 0
count (gap ∷ gaps) = length gap + count gaps

pub timing_delay-ticks :
    (gap : List ℕ) (s : Shared) → (ticks gap s).timing_delay ≡ s.timing_delay - length gap
unfolding ticks
timing_delay-ticks [] s = omega arith
timing_delay-ticks (idr ∷ later) s =
    ground (arith, timing_delay-ticks later (systick_handler idr s))

-- How a wait for `ms` ticks ended: `before` were the interrupts up to the poll that saw the counter
-- at zero; they hold `ms` ticks at least, and without the last interval fewer.
pub record Waited (ms : ℕ) (gaps : List (List ℕ)) (out : Option (List (List ℕ) × Shared))
    : Type 0 where
  pub before : List (List ℕ)
  pub after : List (List ℕ)
  pub final : Shared
  pub returns : out ≡ some (after, final)
  pub in_order : gaps ≡ before ++ after
  pub long_enough : ms ≤ count before
  pub at_once :
      (early late : List (List ℕ)) (gap : List ℕ)
      → before ≡ early ++ (gap ∷ late)
      → count early < ms

-- At each poll but the last the counter is above zero.
abbrev Pending : ℕ → List (List ℕ) → Type 0
Pending ms [] = Unit
Pending ms (gap ∷ gaps) = (0 < ms) × Pending (ms - length gap) gaps

Pending-count :
    (ms : ℕ) (before early late : List (List ℕ)) (gap : List ℕ)
    → Pending ms before
    → before ≡ early ++ (gap ∷ late)
    → count early < ms
Pending-count ms [] [] late gap h e = cc
Pending-count ms [] (g ∷ early) late gap h e = cc
Pending-count ms (b ∷ before) [] late gap h e = h.0
Pending-count ms (b ∷ before) (g ∷ early) late gap h e =
    let same : length b ≡ length g = cc in
    omega (arith, Pending-count (ms - length b) before early late gap h.1 (cc))

-- The end of a wait, with `Pending` in place of the last field of `Waited`.
abbrev Ended : Shared → List (List ℕ) → Type 0
Ended s gaps =
    (before : List (List ℕ)) × (after : List (List ℕ)) × (final : Shared) × (wait_delay gaps s
      ≡ some (after, final))
    × (gaps ≡ before ++ after)
    × (s.timing_delay ≤ count before)
    × Pending s.timing_delay before

wait_delay-Ended : (gaps : List (List ℕ)) (s : Shared) → s.timing_delay ≤ count gaps → Ended s gaps
unfolding wait_delay
wait_delay-Ended [] s h = ([], [], s, ground arith, refl, h, tt)
wait_delay-Ended (gap ∷ gaps) s h = elim (Bool-cases (s.timing_delay == 0)) [
  | inl e ↦ ([], gap ∷ gaps, s, rw e, refl, omega (arith, ==→≡ s.timing_delay 0 e), tt)
  | inr e ↦
      let fell = timing_delay-ticks gap s in
      let (before, after, final, returns, in_order, enough, pending) =
        wait_delay-Ended gaps (ticks gap s) (omega arith) in
      (
        gap ∷ before,
        after,
        final,
        rw e returns,
        ap (λ (g : List (List ℕ)). gap ∷ g) in_order,
        omega arith,
        (omega (arith, ==→≢ s.timing_delay 0 e), rw fell at pending),
      )
]

-- Whatever the interrupts between its polls, `delay_ms ms` returns if they hold `ms` ticks in all.
-- It returns at the first poll with at least `ms` ticks before it, and leaves the later interrupts.
pub delay_ms-Waited :
    (ms : ℕ) (gaps : List (List ℕ)) (s : Shared)
    → ms ≤ count gaps
    → Waited ms gaps (delay_ms ms gaps s)
unfolding delay_ms
delay_ms-Waited ms gaps s h =
    let (before, after, final, returns, in_order, enough, pending) =
      wait_delay-Ended gaps (record s { timing_delay = ms }) h in
    record {
      before = before;
      after = after;
      final = final;
      returns = returns;
      in_order = in_order;
      long_enough = enough;
      at_once = λ early late gap e. Pending-count ms before early late gap pending e;
    }
