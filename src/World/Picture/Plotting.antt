-- ===== src/World/Picture/Plotting.antt =====
-- One plotted column on the display.
use stm32f3_oscilloscope.Prelude.{
  ℕ, ◌%◌, ◌<◌, ◌≡◌, ◌≢◌, refl, sym, ap, ◌∙◌, ◌⊎◌, true, false, inl, inr, List, [], ◌∷◌, ◌++◌,
  length, get_or, set, get_or-set_self, get_or-set_ne, ltb, leb, ◌==◌, ◌&&◌, if◌then◌else◌, ==→≡,
  ==→≢, Bool-cases, arith,
}
use stm32f3_oscilloscope.Prelude.Int.{pos}
use stm32f3_oscilloscope.Device.{Action}
use stm32f3_oscilloscope.Lcd.{Color, green, black, color_code}
use stm32f3_oscilloscope.Spi.Pixels.{color_code-small}
use stm32f3_oscilloscope.Sweep.{erase, pixel}
use stm32f3_oscilloscope.Sweep.Plot.{plotted_row, plotted_color}
use stm32f3_oscilloscope.Screen.{Screen, Driver, put, show}
use stm32f3_oscilloscope.Screen.Stream.{show-append}
use stm32f3_oscilloscope.Screen.Aside.{IsAside, white_code}
use stm32f3_oscilloscope.World.Sound.{IsRow}
use stm32f3_oscilloscope.World.Picture.{IsTraced}

-- Keeping off the trace keeps it.
pub IsAside-IsTraced :
    (d : Driver) (actions : List Action) (previous : List ℕ) (s : Screen)
    → IsAside d actions
    → IsTraced previous s
    → IsTraced previous (show d actions s)
IsAside-IsTraced d actions previous s a t = record {
  alone = λ i j hi hj e. t.alone i j hi hj (a.dark s i j hi hj e);
  shown = λ i hi low. elim (t.shown i hi low) [
    | inl e ↦ inl (a.above s i (get_or previous i 0) hi low ∙ e)
    | inr (top, e) ↦ inr (top, a.above s i 0 hi (omega arith) ∙ e)
  ];
}

-- What erasing leaves in place of the old pixel: green on the graticule's points, and black.
abbrev erased : ℕ → ℕ → ℕ
erased x y = if x % 32 == 0 && y % 32 == 0 then 0x07e0 else 0

module _ (d : Driver) (s : Screen) (x : ℕ) (inside : x < 160) where
  pixel-shows :
      (y : ℕ) (c : Color) (t : Screen)
      → y < 128
      → (show d (pixel (pos x) (pos y) c ∷ []) t).frame ≡ put x y (color_code c) t.frame
  pixel-shows y c t h = d.draws x y (color_code c) t inside h (color_code-small c)

  erase-shows :
      (old i j : ℕ)
      → IsRow old
      → (show d (erase x old) s).frame i j
        ≡ (if leb old 127 && (i == x && (j == old)) then erased x old else s.frame i j)
  unfolding erase
  erase-shows old i j (inl h) =
      let drawn : ltb old 255 ≡ true = ground arith in
      let row : leb old 127 ≡ true = ground arith in
      elim (Bool-cases (x % 32 == 0 && (old % 32 == 0))) [
        | inl e ↦ rw (drawn, row, e) (ap (λ f. f i j) (pixel-shows old green s (omega arith)))
        | inr e ↦ rw (drawn, row, e) (ap (λ f. f i j) (pixel-shows old black s (omega arith)))
      ]
  erase-shows old i j (inr h) = rw h

  plot-shows :
      (old row i j : ℕ) (c : Color)
      → IsRow old
      → row < 128
      → (show d (erase x old ++ (pixel (pos x) (pos row) c ∷ [])) s).frame i j
        ≡ put x row
            (color_code c)
            (λ i j. if leb old 127 && (i == x && (j == old)) then erased x old else s.frame i j)
            i
            j
  plot-shows old row i j c h low =
      ap (λ (t : Screen). t.frame i j)
        (show-append d (erase x old) (pixel (pos x) (pos row) c ∷ []) s)
      ∙ ap (λ f. f i j) (pixel-shows row c (show d (erase x old) s) low)
      ∙ ap (λ v. if i == x && (j == row) then color_code c else v) (erase-shows old i j h)

  -- The new frame in the plotted column and in the others.
  plot-shows_column :
      (old row j : ℕ) (c : Color)
      → IsRow old
      → row < 128
      → (show d (erase x old ++ (pixel (pos x) (pos row) c ∷ [])) s).frame x j ≡ (
          if j == row
          then color_code c
          else (if leb old 127 && (j == old) then erased x old else s.frame x j))
  plot-shows_column old row j c h low =
      let same : x == x ≡ true = ground arith in plot-shows old row x j c h low ∙ rw same refl

  plot-shows_other :
      (old row i j : ℕ) (c : Color)
      → IsRow old
      → row < 128
      → i ≢ x
      → (show d (erase x old ++ (pixel (pos x) (pos row) c ∷ [])) s).frame i j ≡ s.frame i j
  plot-shows_other old row i j c h low ne =
      let other : i == x ≡ false = ground arith in
      plot-shows old row i j c h low ∙ rw other (ground arith)

  pub plotted_code :
      (raw : ℕ)
      → (color_code (plotted_color raw) ≡ white_code)
        ⊎ ((plotted_row raw ≡ 0) × (color_code (plotted_color raw) ≡ 0xf800))
  plotted_code raw = elim (Bool-cases (raw == 4095)) [
    | inl e ↦ rw e (inr (refl, refl))
    | inr e ↦ rw e (inl refl)
  ]

  column_alone :
      (old row code j v : ℕ)
      → IsRow old
      → j < 128
      → (v ≡ white_code → old ≡ j)
      → (if j == row then code else (if leb old 127 && (j == old) then erased x old else v))
        ≡ white_code
      → row ≡ j
  column_alone old row code j v h hj t e = ground arith

  -- The old pixel of the column is erased and the new one drawn.
  module _ (previous : List ℕ) (size : length previous ≡ 160) (row : ℕ) (c : Color)
      (low : row < 128) (old : IsRow (get_or previous x 0)) (t : IsTraced previous s) where
    abbrev after_plot : Screen
    after_plot = show d (erase x (get_or previous x 0) ++ (pixel (pos x) (pos row) c ∷ [])) s

    set_self : get_or (set previous x row) x 0 ≡ row
    set_self = get_or-set_self previous x row 0 (omega arith)

    set_other : (i : ℕ) → i ≢ x → get_or (set previous x row) i 0 ≡ get_or previous i 0
    set_other i ne = get_or-set_ne previous x i row 0 (λ e. ne (sym e))

    alone_after :
        (i j : ℕ)
        → i < 160
        → j < 128
        → after_plot.frame i j ≡ white_code
        → get_or (set previous x row) i 0 ≡ j
    alone_after i j hi hj e = elim (Bool-cases (i == x)) [
      | inr ne ↦
          let other = ==→≢ i x ne in
          set_other i other
          ∙ t.alone i j hi hj
              (sym (plot-shows_other (get_or previous x 0) row i j c old low other) ∙ e)
      | inl same ↦
          let column = ==→≡ i x same in
          ap (λ i. get_or (set previous x row) i 0) column
          ∙ set_self
          ∙ column_alone (get_or previous x 0) row (color_code c) j (s.frame x j) old hj
              (t.alone x j inside hj)
              (sym (plot-shows_column (get_or previous x 0) row j c old low)
                ∙ ap (λ i. after_plot.frame i j) (sym column)
                ∙ e)
    ]

    drawn_pixel : after_plot.frame x row ≡ color_code c
    drawn_pixel =
        let same : row == row ≡ true = ground arith in
        plot-shows_column (get_or previous x 0) row row c old low ∙ rw same refl

    shown_after :
        (color_code c ≡ white_code) ⊎ ((row ≡ 0) × (color_code c ≡ 0xf800))
        → (i : ℕ) → i < 160
        → get_or (set previous x row) i 0 < 104
        → (after_plot.frame i (get_or (set previous x row) i 0) ≡ white_code)
          ⊎ ((get_or (set previous x row) i 0 ≡ 0) × (after_plot.frame i 0 ≡ 0xf800))
    shown_after code i hi above = elim (Bool-cases (i == x)) [
      | inr ne ↦
          let other = ==→≢ i x ne in
          let kept = λ (j : ℕ). plot-shows_other (get_or previous x 0) row i j c old low other in
          rw (set_other i other) (elim (t.shown i hi (rw (← set_other i other) above)) [
            | inl e ↦ inl (kept (get_or previous i 0) ∙ e)
            | inr (top, e) ↦ inr (top, kept 0 ∙ e)
          ])
      | inl same ↦
          let column = ==→≡ i x same in
          rw (column, set_self)
            (elim code [
              | inl e ↦ inl (drawn_pixel ∙ e)
              | inr (top, e) ↦
                  inr (top, ap (λ row. after_plot.frame x row) (sym top) ∙ drawn_pixel ∙ e)
            ])
    ]

    pub plot-IsTraced :
        (color_code c ≡ white_code) ⊎ ((row ≡ 0) × (color_code c ≡ 0xf800))
        → IsTraced (set previous x row) after_plot
    plot-IsTraced code = record { alone = alone_after; shown = shown_after code }
