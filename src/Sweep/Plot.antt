-- ===== src/Sweep/Plot.antt =====
-- Where a conversion is plotted.
use stm32f3_oscilloscope.Prelude.{
  ℕ, ◌+◌, ◌-◌, ◌*◌, ◌/◌, ◌^◌, ◌≤◌, ◌<◌, ◌≡◌, ◌≢◌, ◌⊎◌, inl, inr, List, [], ◌∷◌, ◌++◌, length,
  get_or, set, leb, Bool-cases, ==→≡, ==→≢, true, false, ltb, ◌==◌, if◌then◌else◌, arith,
}
use stm32f3_oscilloscope.Prelude.Int.{ℤ, pos, negsuc, ◌-ℤ◌}
use stm32f3_oscilloscope.Prelude.Word.{Build, ok, >>=-of_ok, index-eq-get_or}
use stm32f3_oscilloscope.Device.{Registers, dma1_cndtr1}
use stm32f3_oscilloscope.Capture.{get_transferred_sample_count}
use stm32f3_oscilloscope.Lcd.{Color, white, red}
use stm32f3_oscilloscope.Sweep.{Scope, after, erase, row_of, plot, pixel, sweep_during}

-- The rows up from the bottom one.
abbrev pub rows_up : ℕ → ℕ
rows_up raw = raw * 806 / 25_781

row_of-rows :
    (b : Build) (raw : ℕ)
    → raw < 2 ^ 12
    → (raw ≢ 4095 → (rows_up raw ≤ 127) × (row_of b raw ≡ ok (pos (127 - rows_up raw))))
      × (raw ≡ 4095 → row_of b raw ≡ ok (negsuc 0))
unfolding row_of ◌-ℤ◌
row_of-rows b raw h = (λ ne. (omega arith, ground arith), λ e. ground arith)

-- The row that a conversion is plotted in: the top one at full scale.
abbrev pub plotted_row : ℕ → ℕ
plotted_row raw = if raw == 4095 then 0 else 127 - rows_up raw

abbrev pub plotted_color : ℕ → Color
plotted_color raw = if raw == 4095 then red else white

-- A conversion of 12 bits is plotted without a panic in both builds: in red in the top row at full
-- scale, 4095, whose row comes out as -1, and in white in its own row otherwise.
pub plot-plotted_row :
    (b : Build) (x raw : ℕ)
    → raw < 2 ^ 12
    → (y : ℤ) × (row_of b raw ≡ ok y)
      × (plot x y ≡ (pixel (pos x) (pos (plotted_row raw)) (plotted_color raw), plotted_row raw))
      × (y ≡ (if raw == 4095 then negsuc 0 else pos (plotted_row raw)))
unfolding plot
plot-plotted_row b x raw h = elim (Bool-cases (raw == 4095)) [
  | inl e ↦ (negsuc 0, (row_of-rows b raw h).1 (==→≡ raw 4095 e), rw e, rw e)
  | inr e ↦
      let (low, row) = (row_of-rows b raw h).0 (==→≢ raw 4095 e) in
      (pos (127 - rows_up raw), row, rw e (ground arith), rw e)
]

-- The scaling by microvolts agrees with the shift by 5 bits that the source's comment names, or
-- comes out one row higher; it keeps to the panel, and a higher conversion is never plotted lower.
pub plotted_row-shift :
    (raw : ℕ)
    → raw < 2 ^ 12
    → (plotted_row raw ≤ 127)
      × ((plotted_row raw + raw / 2 ^ 5 ≡ 127) ⊎ (plotted_row raw + raw / 2 ^ 5 + 1 ≡ 127))
      × ((higher : ℕ) → higher < 2 ^ 12 → raw ≤ higher → plotted_row higher ≤ plotted_row raw)
plotted_row-shift raw h = (ground arith, ground arith, λ higher hh le. ground arith)

module _ (b : Build) (r : Registers) (captured : List ℕ) (s : Scope)
    (left : r dma1_cndtr1 ≤ 160) where
  abbrev x : ℕ
  x = s.x_out

  count_lem : get_transferred_sample_count b r ≡ ok (160 - r dma1_cndtr1)
  unfolding get_transferred_sample_count
  count_lem = ground arith

  -- With every transferred sample plotted, the loop changes nothing.
  pub sweep_during-waits : 160 - r dma1_cndtr1 ≤ x → sweep_during b r captured s ≡ ok (s, [])
  unfolding sweep_during
  sweep_during-waits h =
      >>=-of_ok _ count_lem (let no : ltb x (160 - r dma1_cndtr1) ≡ false = ground arith in rw no)

  pub sweep_during-plots :
      length s.previous_y ≡ 160
      → length captured ≡ 160
      → x < 160 - r dma1_cndtr1
      → get_or captured x 0 < 2 ^ 12
      → let row = plotted_row (get_or captured x 0) in
        sweep_during b r captured s
        ≡ ok (
          record s {
            previous_y = set s.previous_y x row;
            x_out = x + 1;
            state = if leb 160 (x + 1) then after else s.state;
          },
          erase x (get_or s.previous_y x 0)
              ++ (pixel (pos x) (pos row) (plotted_color (get_or captured x 0)) ∷ []),
        )
  unfolding sweep_during
  sweep_during-plots hp hc h small =
      let (y, row, plotted, value) = plot-plotted_row b x (get_or captured x 0) small in
      let more : ltb x (160 - r dma1_cndtr1) ≡ true = ground arith in
      >>=-of_ok _ count_lem (
        rw more (
          >>=-of_ok _ (index-eq-get_or s.previous_y x 0 (omega arith)) (
            >>=-of_ok _ (index-eq-get_or captured x 0 (omega arith))
              (>>=-of_ok _ row (rw plotted)))))
