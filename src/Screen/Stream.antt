-- ===== src/Screen/Stream.antt =====
-- Colors sent into a window, pixel by pixel.
use stm32f3_oscilloscope.Prelude.{
  ℕ, zero, suc, ◌+◌, ◌-◌, ◌*◌, ◌^◌, ◌<◌, ◌≡◌, refl, sym, ap, ◌∙◌, Bool, ◌&&◌, none, List, [], ◌∷◌,
  ◌++◌, ltb, leb, if◌then◌else◌, arith,
}
use native.Mathlib.Nat.{zero-add}
use stm32f3_oscilloscope.Device.{Action, modify, write, await, delay_ms, lcd, set_addr_window}
use stm32f3_oscilloscope.Lcd.{send_color}
use stm32f3_oscilloscope.Lcd.Glyph.Stream.{send_stream, send_stream-append}
use stm32f3_oscilloscope.Spi.Pixels.{color_bytes}
use stm32f3_oscilloscope.Screen.{Frame, Screen, put, advance, Driver, do_call, show}

abbrev pub in_rect : ℕ → ℕ → ℕ → ℕ → ℕ → ℕ → Bool
in_rect x y w h i j = leb x i && ltb i (x + w) && leb y j && ltb j (y + h)

advance-frame : (s : Screen) (i j : ℕ) → (advance s).frame i j ≡ s.frame i j
advance-frame s i j = ground arith

module _ (d : Driver) where
  pub show-append :
      (xs ys : List Action) (s : Screen) → show d (xs ++ ys) s ≡ show d ys (show d xs s)
  show-append [] ys s = refl
  show-append (lcd c ∷ xs) ys s = show-append xs ys (do_call d c s)
  show-append (modify fs ∷ xs) ys s = show-append xs ys s
  show-append (write fs ∷ xs) ys s = show-append xs ys s
  show-append (await f v ∷ xs) ys s = show-append xs ys s
  show-append (delay_ms n ∷ xs) ys s = show-append xs ys s

  -- The window at `x` and `y` of `w` by `h` pixels, with the next pixel at its column `c` and row
  -- `r`.
  module _ (x y w h : ℕ) where
    abbrev pub window : Frame → ℕ → ℕ → Screen
    window f c r = record {
      frame = f;
      left = x;
      top = y;
      right = x + w - 1;
      bottom = y + h - 1;
      column = x + c;
      row = y + r;
      high = none;
    }

    -- The next place after a pixel.
    show-send_color :
        (color : ℕ) (f : Frame) (c r : ℕ)
        → color < 2 ^ 16
        → show d (send_color color) (window f c r)
          ≡ advance (window (put (x + c) (y + r) color f) c r)
    show-send_color color f c r small = rw (color_bytes color small)

    advance_along : (f : Frame) (c r : ℕ) → c + 1 < w → advance (window f c r) ≡ window f (c + 1) r
    advance_along f c r h = ground arith

    advance_down :
        (f : Frame) (r : ℕ) → 0 < w → r + 1 < h → advance (window f (w - 1) r) ≡ window f 0 (r + 1)
    advance_down f r wide h = ground arith

    -- What a stretch of colors, numbered from `k`, leaves: the place of its last pixel is `c` and
    -- `r`, and its pixels are those of a rectangle, row by row.
    module _ (color : ℕ → ℕ) (small : (k : ℕ) → color k < 2 ^ 16) where
      first_pixel :
          (u v k : ℕ) (f : Frame) (i j : ℕ)
          → put u v (color k) f i j ≡ (if in_rect u v 1 1 i j then color (k + (i - u)) else f i j)
      first_pixel u v k f i j = ground arith

      later_pixel :
          (u v n k : ℕ) (f : Frame) (i j : ℕ)
          → (if in_rect (u + 1) v n 1 i j
              then color (k + 1 + (i - (u + 1)))
              else put u v (color k) f i j)
            ≡ (if in_rect u v (suc n) 1 i j then color (k + (i - u)) else f i j)
      later_pixel u v n k f i j = ground arith

      -- The next pixels of one row, up to its column `last`.
      row-shows :
          (n c r k last : ℕ) (f : Frame)
          → c + n ≡ last
          → last < w
          → (g : Frame) × (show d (send_stream color (suc n) k) (window f c r)
              ≡ advance (window g last r))
            × ((i j : ℕ)
                → g i j ≡ (
                    if in_rect (x + c) (y + r) (suc n) 1 i j
                    then color (k + (i - (x + c)))
                    else f i j))
      row-shows zero c r k last f e inside = (
        put (x + c) (y + r) (color k) f,
        show-send_color (color k) f c r (small k)
            ∙ ap (λ place. advance (window (put (x + c) (y + r) (color k) f) place r))
                (omega arith),
        λ i j. first_pixel (x + c) (y + r) k f i j,
      )
      row-shows (suc n) c r k last f e inside =
          let f' = put (x + c) (y + r) (color k) f in
          let (g, shows, pixels) = row-shows n (c + 1) r (k + 1) last f' (omega arith) inside in
          (
            g,
            ap (λ (s : Screen). show d (send_stream color (suc n) (k + 1)) s)
                  (show-send_color (color k) f c r (small k) ∙ advance_along f' c r (omega arith))
                ∙ shows,
            λ i j.
                let same : x + (c + 1) ≡ x + c + 1 = omega arith in
                pixels i j ∙ rw same (later_pixel (x + c) (y + r) (suc n) k f i j),
          )

      row_up : (v j : ℕ) → v < j → w * (j - v) ≡ w * (j - (v + 1)) + w
      row_up v j h = let next : j - v ≡ suc (j - (v + 1)) = omega arith in rw next (omega arith)

      row_first : (v j : ℕ) → j ≡ v → w * (j - v) ≡ 0
      row_first v j h = let none_up : j - v ≡ 0 = omega arith in rw none_up (omega arith)

      one_row_pixel :
          (u v k : ℕ) (f : Frame) (i j : ℕ)
          → (if in_rect u v w 1 i j then color (k + (i - u)) else f i j)
            ≡ (if in_rect u v w 1 i j then color (k + (w * (j - v) + (i - u))) else f i j)
      one_row_pixel u v k f i j = ground (arith, row_first v j)

      stacked_pixel :
          (u v m k : ℕ) (f : Frame) (i j : ℕ)
          → (if in_rect u (v + 1) w m i j
              then color (k + w + (w * (j - (v + 1)) + (i - u)))
              else (if in_rect u v w 1 i j then color (k + (w * (j - v) + (i - u))) else f i j))
            ≡ (if in_rect u v w (suc m) i j then color (k + (w * (j - v) + (i - u))) else f i j)
      stacked_pixel u v m k f i j = ground (arith, row_up v j)

      -- A whole row.
      full_row-shows :
          (r k : ℕ) (f : Frame)
          → 0 < w
          → (g : Frame) × (show d (send_stream color w k) (window f 0 r)
              ≡ advance (window g (w - 1) r))
            × ((i j : ℕ)
                → g i j ≡ (
                    if in_rect x (y + r) w 1 i j
                    then color (k + (w * (j - (y + r)) + (i - x)))
                    else f i j))
      full_row-shows r k f wide =
          let size : suc (w - 1) ≡ w = omega arith in
          let start : x + 0 ≡ x = omega arith in
          let (g, shows, pixels) = row-shows (w - 1) 0 r k (w - 1) f (omega arith) (omega arith) in
          (
            g,
            ap (λ n. show d (send_stream color n k) (window f 0 r)) (sym size) ∙ shows,
            λ i j. pixels i j ∙ rw (start, size) (one_row_pixel x (y + r) k f i j),
          )

      stream-split :
          (m k : ℕ)
          → send_stream color (suc m * w) k
            ≡ send_stream color w k ++ send_stream color (m * w) (k + w)
      stream-split m k =
          let size : suc m * w ≡ w + m * w = omega arith in
          rw size (sym (send_stream-append color w (m * w) k (k + w) refl))

      -- The next `m + 1` rows, up to the row `last`.
      pub rows-shows :
          (m r k last : ℕ) (f : Frame)
          → 0 < w
          → r + m ≡ last
          → last < h
          → (g : Frame) × (show d (send_stream color (suc m * w) k) (window f 0 r)
              ≡ advance (window g (w - 1) last))
            × ((i j : ℕ)
                → g i j ≡ (
                    if in_rect x (y + r) w (suc m) i j
                    then color (k + (w * (j - (y + r)) + (i - x)))
                    else f i j))
      rows-shows zero r k last f wide e inside =
          let (g, shows, pixels) = full_row-shows r k f wide in
          let one : 1 * w ≡ w = omega arith in
          let same : r ≡ last = omega arith in (g, rw one (rw (← same) shows), pixels)
      rows-shows (suc m) r k last f wide e inside =
          let (f₁, first, pixels₁) = full_row-shows r k f wide in
          let (g, shows, pixels) = rows-shows m (r + 1) (k + w) last f₁ wide (omega arith) inside in
          let rest = send_stream color (suc m * w) (k + w) in
          let below : y + (r + 1) ≡ y + r + 1 = omega arith in
          (
            g,
            ap (λ actions. show d actions (window f 0 r)) (stream-split (suc m) k)
                ∙ show-append (send_stream color w k) rest (window f 0 r)
                ∙ ap (show d rest) (first ∙ advance_down f₁ r wide (omega arith))
                ∙ shows,
            λ i j. pixels i j ∙ rw (below, pixels₁ i j) (stacked_pixel x (y + r) (suc m) k f i j),
          )

-- A window opened at `x` and `y` and filled with colors: each of its pixels has its color, row by
-- row, and all others are as before.
pub rect-shows :
    (d : Driver) (x y w h : ℕ) (color : ℕ → ℕ) (small : (k : ℕ) → color k < 2 ^ 16) (s : Screen)
    → 0 < w
    → 0 < h
    → (i j : ℕ)
    → (show d
          (lcd (set_addr_window x y (x + w - 1) (y + h - 1)) ∷ send_stream color (h * w) 0)
          s).frame
        i j
      ≡ (if in_rect x y w h i j then color (w * (j - y) + (i - x)) else s.frame i j)
rect-shows d x y w h color small s wide tall i j =
    let size : suc (h - 1) ≡ h = omega arith in
    let start : x + 0 ≡ x = omega arith in
    let start' : y + 0 ≡ y = omega arith in
    let (g, shows, pixels) =
      rows-shows d x y w h color small (h - 1) 0 0 (h - 1) s.frame wide (omega arith)
        (omega arith) in
    let opened : d.call (set_addr_window x y (x + w - 1) (y + h - 1)) s
        ≡ window d x y w h s.frame 0 0 =
      d.opens x y (x + w - 1) (y + h - 1) s ∙ rw (start, start') refl in
    ap (λ s. (show d (send_stream color (h * w) 0) s).frame i j) opened
    ∙ ap (λ n. (show d (send_stream color (n * w) 0) (window d x y w h s.frame 0 0)).frame i j)
        (sym size)
    ∙ ap (λ (s : Screen). s.frame i j) shows
    ∙ advance-frame (window d x y w h g (w - 1) (h - 1)) i j
    ∙ pixels i j
    ∙ rw (start', size, zero-add) refl
