-- ===== src/Settings/Labels.antt =====
-- The labels of the timebases of main.rs, read as times, and the periods that the timer is set to
-- for them.
use stm32f3_oscilloscope.Prelude.{
  ℕ, ◌+◌, ◌-◌, ◌*◌, ◌<◌, ◌≡◌, refl, Bool, true, false, ◌&&◌, List, [], ◌∷◌, All, All-get_or, get_or,
  length, leb, ◌==◌, if◌then◌else◌,
}
use stm32f3_oscilloscope.Prelude.Word.{Build, debug, release, ok}
use stm32f3_oscilloscope.Capture.{set_timebase, timebase_for, timebase_actions}
use stm32f3_oscilloscope.Settings.{TimebaseInterval, timebase_intervals, bytes}
use stm32f3_oscilloscope.Settings.Status.{unset}

-- A number with at most one decimal, in tenths, and the text behind it.
abbrev tenths : ℕ → List ℕ → ℕ × List ℕ
tenths n [] = (10 * n, [])
tenths n (c ∷ []) = (10 * n, c ∷ [])
tenths n (c ∷ c' ∷ text) =
    let more = tenths (10 * n + (c - 48)) (c' ∷ text) in
    if leb 48 c && leb c 57
    then more
    else if c == 46
    then (10 * n + (c' - 48), text)
    else (10 * n, c ∷ c' ∷ text)

abbrev same : List ℕ → List ℕ → Bool
same [] [] = true
same [] (y ∷ ys) = false
same (x ∷ xs) [] = false
same (x ∷ xs) (y ∷ ys) = x == y && same xs ys

-- A tenth of the unit of time, in nanoseconds.
abbrev tenth_ns : List ℕ → ℕ
tenth_ns unit =
    if same unit (bytes "s")
    then 100_000_000
    else if same unit (bytes "ms")
    then 100_000
    else if same unit (bytes "us")
    then 100
    else 0

-- A time as in ".5ms", in nanoseconds.
abbrev time_ns : List ℕ → ℕ
time_ns text = (tenths 0 text).0 * tenth_ns (tenths 0 text).1

-- Whether 32 samples, each of so many cycles of 72 MHz, take the time of the label: exactly, or,
-- behind a '~', to 2.3 percent.
abbrev pub labelled_time : List ℕ → ℕ → Bool
labelled_time [] cycles = false
labelled_time (c ∷ text) cycles =
    let taken = 32_000 * cycles in
    let named = 72 * time_ns text in
    if c == 126
    then leb (977 * named) (1000 * taken) && leb (1000 * taken) (1023 * named)
    else taken == 72 * time_ns (c ∷ text)

module _ (b : Build) where
  abbrev IsTimed : TimebaseInterval → Type 0
  IsTimed t =
      (arr : ℕ) × (psc : ℕ) × (set_timebase b t.sample_rate ≡ ok (timebase_actions arr psc))
      × (labelled_time t.label ((arr + 1) * (psc + 1)) ≡ true)

timebase_intervals-IsTimed : (b : Build) → All (IsTimed b) timebase_intervals
unfolding set_timebase timebase_for
timebase_intervals-IsTimed debug = (
  (31999, 2249, refl, refl),
  (
    (999, 2249, refl, refl),
    (
      (499, 2249, refl, refl),
      (
        (199, 2249, refl, refl),
        (
          (99, 2249, refl, refl),
          (
            (49, 2249, refl, refl),
            (
              (44999, 0, refl, refl),
              (
                (22499, 0, refl, refl),
                (
                  (11249, 0, refl, refl),
                  (
                    (4499, 0, refl, refl),
                    (
                      (2249, 0, refl, refl),
                      (
                        (1124, 0, refl, refl),
                        (
                          (449, 0, refl, refl),
                          (
                            (224, 0, refl, refl),
                            (
                              (111, 0, refl, refl),
                              ((44, 0, refl, refl), ((22, 0, refl, refl), tt)),
                            ),
                          ),
                        ),
                      ),
                    ),
                  ),
                ),
              ),
            ),
          ),
        ),
      ),
    ),
  ),
)
timebase_intervals-IsTimed release = (
  (31999, 2249, refl, refl),
  (
    (999, 2249, refl, refl),
    (
      (499, 2249, refl, refl),
      (
        (199, 2249, refl, refl),
        (
          (99, 2249, refl, refl),
          (
            (49, 2249, refl, refl),
            (
              (44999, 0, refl, refl),
              (
                (22499, 0, refl, refl),
                (
                  (11249, 0, refl, refl),
                  (
                    (4499, 0, refl, refl),
                    (
                      (2249, 0, refl, refl),
                      (
                        (1124, 0, refl, refl),
                        (
                          (449, 0, refl, refl),
                          (
                            (224, 0, refl, refl),
                            (
                              (111, 0, refl, refl),
                              ((44, 0, refl, refl), ((22, 0, refl, refl), tt)),
                            ),
                          ),
                        ),
                      ),
                    ),
                  ),
                ),
              ),
            ),
          ),
        ),
      ),
    ),
  ),
)

-- For every entry of the timebase table and in both builds, `set_timebase` returns and
-- writes a period and a prescaler with which 32 samples, a division of the graticule, take
-- the time that the entry's label says: exactly, or to 2.3 percent where the label has a '~'.
pub timebase_intervals-labelled :
    (b : Build) (i : ℕ)
    → i < length timebase_intervals
    → let t = get_or timebase_intervals i unset in
      (arr : ℕ) × (psc : ℕ) × (set_timebase b t.sample_rate ≡ ok (timebase_actions arr psc))
      × (labelled_time t.label ((arr + 1) * (psc + 1)) ≡ true)
timebase_intervals-labelled b i h =
    All-get_or (IsTimed b) timebase_intervals i unset (timebase_intervals-IsTimed b) h
