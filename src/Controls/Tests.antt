-- ===== src/Controls/Tests.antt =====
-- A press of the first button, from its pin on.
use stm32f3_oscilloscope.Prelude.{ℕ, ◌≡◌, refl, List, [], ◌∷◌, arith}
use stm32f3_oscilloscope.Prelude.Word.{Result, ok}
use stm32f3_oscilloscope.Device.{Action}
use stm32f3_oscilloscope.Interrupts
use stm32f3_oscilloscope.Interrupts.{Shared, ticks}
use stm32f3_oscilloscope.Sweep
use stm32f3_oscilloscope.Sweep.{Scope}
use stm32f3_oscilloscope.Controls.{check_button}
use stm32f3_oscilloscope.Controls.Response.{check_button-responds}

abbrev count_up : Scope → Result (Scope × List Action)
count_up s = ok (record s { x_out = 1 }, [])

-- The first button's pin is low, the others are high.
abbrev low : List ℕ
low = 0xe000 ∷ []

check_button-responds_example :
    (shared' : Shared) × (check_button 0 low [] count_up (ticks low Interrupts.start) Sweep.start
      ≡ ok (shared', record Sweep.start { x_out = 1 }, []))
    × ((g g' : List ℕ) (s' : Scope)
        → check_button 0 g g' count_up (ticks low shared') s' ≡ ok (ticks low shared', s', []))
check_button-responds_example =
    check_button-responds 0 (omega arith) count_up Sweep.start Interrupts.start 0xe000 [] low [] low
      (record Sweep.start { x_out = 1 }, []) refl refl refl (refl, tt) (refl, tt) tt (refl, tt) refl
