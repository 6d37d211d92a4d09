-- ===== src/Boot/Graticule.antt =====
-- The graticule of main.rs, as it is painted and as the plot is erased over it.
use stm32f3_oscilloscope.Prelude.{
  ℕ, suc, ◌%◌, ◌<◌, ◌≡◌, ◌≢◌, refl, ap, ◌⊎◌, inl, inr, List, [], ◌∷◌, All, ◌==◌, Bool-cases, ==→≡,
  arith,
}
use stm32f3_oscilloscope.Prelude.Int.{pos, pos_part, ◌-ℤ◌}
use stm32f3_oscilloscope.Device.{Action, lcd, draw_pixel}
use stm32f3_oscilloscope.Lcd.{black, red}
use stm32f3_oscilloscope.Sweep.{pixel, erase}
use stm32f3_oscilloscope.Boot.{paint_column, paint_columns, graticule}

abbrev row_drawn : Action → ℕ
row_drawn (lcd (draw_pixel x y c)) = pos_part y
row_drawn a = 0

painted_rows : All (λ a. row_drawn a % 32 ≡ 31) graticule
unfolding graticule paint_columns paint_column ◌-ℤ◌
painted_rows = omega arith

absent :
    (actions : List Action) (x y : ℕ)
    → y % 32 ≡ 0
    → All (λ a. row_drawn a % 32 ≡ 31) actions
    → All (λ a. a ≢ pixel (pos x) (pos y) red) actions
absent [] x y e h = tt
absent (a ∷ actions) x y e (row, rows) =
    (λ same. let at : row_drawn a ≡ y = ap row_drawn same in omega arith, absent actions x y e rows)

-- The fuel of the loops is enough: more of it paints the same.
graticule_fuel :
    (n : ℕ)
    → (paint_columns (suc (suc (suc (suc (suc n))))) 32 ≡ graticule)
      × ((x : ℕ) → paint_column (suc (suc (suc (suc n)))) x 32 ≡ paint_column 4 x 32)
unfolding graticule paint_columns paint_column
graticule_fuel n = (refl, λ x. refl)

-- A point of the panel that the graticule paints, in red, is one that erasing the plot turns
-- black, and a point that erasing puts back in green is never one of the painted ones.
pub graticule-erase :
    (x y : ℕ)
    → y < 128
    → (All (λ a. a ≢ pixel (pos x) (pos y) red) graticule)
      ⊎ (erase x y ≡ pixel (pos x) (pos y) black ∷ [])
unfolding erase
graticule-erase x y h = elim (Bool-cases (y % 32 == 0)) [
  | inl e ↦ inl (absent graticule x y (==→≡ (y % 32) 0 e) painted_rows)
  | inr e ↦ inr (ground arith)
]
