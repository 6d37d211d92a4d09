-- ===== src/Screen/Writing.antt =====
-- What the text printing of st7735.rs leaves on the display.
use stm32f3_oscilloscope.Prelude.{
  ℕ, ◌+◌, ◌-◌, ◌*◌, ◌/◌, ◌%◌, ◌<◌, ◌≡◌, sym, ap, ◌∙◌, ◌&&◌, inl, inr, List, [], ◌∷◌, length, get_or,
  take, ltb, leb, if◌then◌else◌, Bool-cases, leb→le, leb→lt, arith,
}
use stm32f3_oscilloscope.Prelude.Bits.{bit}
use stm32f3_oscilloscope.Prelude.Word.{Build, ok}
use stm32f3_oscilloscope.Device.{Action, lcd, set_addr_window}
use stm32f3_oscilloscope.Lcd.{Color, landscape}
use stm32f3_oscilloscope.Lcd.Text.{print}
use stm32f3_oscilloscope.Lcd.Glyph.{ink, glyph_pixel, glyph}
use stm32f3_oscilloscope.Lcd.Glyph.Stream.{send_stream}
use stm32f3_oscilloscope.Lcd.Print.{glyphs, print-glyphs}
use stm32f3_oscilloscope.Spi.Pixels.{glyph_pixel-small}
use stm32f3_oscilloscope.Screen.{Screen, Driver, show}
use stm32f3_oscilloscope.Screen.Stream.{in_rect, rect-shows, show-append}

module _ (font : List ℕ) (fg bg : Color) where
  -- The pixel of a character at a column and a row of its cell.
  abbrev pub letter : ℕ → ℕ → ℕ → ℕ
  letter c u v = ink font fg bg (bit (get_or font (c * 12 + v) 0) u)

  -- The pixel of a line of text at a column and a row of it, where `old` is what was there before:
  -- a character past the table leaves its cell as it is.
  abbrev pub text_pixel : List ℕ → ℕ → ℕ → ℕ → ℕ
  text_pixel [] u v old = old
  text_pixel (c ∷ text) u v old =
      let later = text_pixel text (u - 8) v old in
      if ltb u 8 then (if ltb c 128 then letter c u v else old) else later

  -- The same on the display, for a line with its corner at `x` and `y`.
  abbrev pub line_pixel : List ℕ → ℕ → ℕ → ℕ → ℕ → ℕ → ℕ
  line_pixel text x y i j old =
      if leb x i && (leb y j && ltb j (y + 12)) then text_pixel text (i - x) (j - y) old else old

  glyph_pixel-letter : (c u v : ℕ) → u < 8 → glyph_pixel font fg bg c (8 * v + u) ≡ letter c u v
  glyph_pixel-letter c u v h =
      let row : (8 * v + u) / 8 ≡ v = omega arith in
      let column : (8 * v + u) % 8 ≡ u = omega arith in rw (row, column)

  line_step :
      (c : ℕ) (text : List ℕ) (x y i j old : ℕ)
      → line_pixel text (x + 8) y i j (
          if ltb c 128
          then (if in_rect x y 8 12 i j then letter c (i - x) (j - y) else old)
          else old)
        ≡ line_pixel (c ∷ text) x y i j old
  line_step c text x y i j old =
      let same : i - (x + 8) ≡ i - x - 8 = omega arith in rw same (ground arith)

  module _ (d : Driver) where
    glyph-shows :
        (x y c : ℕ) (s : Screen) (i j : ℕ)
        → (show d (glyph font fg bg x y c) s).frame i j ≡ (
            if ltb c 128
            then (if in_rect x y 8 12 i j then letter c (i - x) (j - y) else s.frame i j)
            else s.frame i j)
    glyph-shows x y c s i j = elim (Bool-cases (ltb c 128)) [
      | inr e ↦ rw e
      | inl e ↦
          let right : x + 8 - 1 ≡ x + 7 = omega arith in
          let bottom : y + 12 - 1 ≡ y + 11 = omega arith in
          rw e (
            ap
              (λ (right : ℕ).
                (show d
                    (lcd (set_addr_window x y right (y + 11))
                      ∷ send_stream (glyph_pixel font fg bg c) 96 0)
                    s).frame
                  i j)
              (sym right)
            ∙ ap
                (λ (bottom : ℕ).
                  (show d
                      (lcd (set_addr_window x y (x + 8 - 1) bottom)
                        ∷ send_stream (glyph_pixel font fg bg c) 96 0)
                      s).frame
                    i j)
                (sym bottom)
            ∙ rect-shows d x y 8 12 (glyph_pixel font fg bg c) (glyph_pixel-small font fg bg c) s
                (omega arith) (omega arith) i j
            ∙ ground (arith, glyph_pixel-letter c (i - x) (j - y)))
    ]

    pub glyphs-shows :
        (y : ℕ) (text : List ℕ) (x : ℕ) (s : Screen) (i j : ℕ)
        → (show d (glyphs font fg bg y x text) s).frame i j ≡ line_pixel text x y i j (s.frame i j)
    glyphs-shows y [] x s i j = ground arith
    glyphs-shows y (c ∷ text) x s i j =
        let first = glyph font fg bg x y c in
        ap (λ (t : Screen). t.frame i j) (show-append d first (glyphs font fg bg y (x + 8) text) s)
        ∙ glyphs-shows y text (x + 8) (show d first s) i j
        ∙ rw (glyph-shows x y c s i j) (line_step c text x y i j (s.frame i j))

    -- With a font of 1,536 bytes, `st7735_print` on the landscape panel returns in both builds. Of
    -- a text whose line lies on the panel, the whole characters that fit before the right edge
    -- show on the pixels of their cells, in the foreground color where the bit of the font is set
    -- and in the background color where it is not; every other pixel is as before. Of a text whose
    -- line does not lie on the panel nothing shows.
    pub print-shows :
        (b : Build) (text : List ℕ) (x y : ℕ) (s : Screen)
        → length font ≡ 1536
        → (actions : List Action) × (print b font fg bg landscape text x y ≡ ok actions)
          × ((i j : ℕ)
              → (show d actions s).frame i j ≡ (
                  if leb (y + 12) 128
                  then line_pixel (take ((160 - x) / 8) text) x y i j (s.frame i j)
                  else s.frame i j))
    print-shows b text x y s size =
        let (on, off) =
          print-glyphs font fg bg y b landscape size (omega arith) (omega arith) (omega arith) text
            x (omega arith) in
        elim (Bool-cases (leb (y + 12) 128)) [
          | inl e ↦ (
            glyphs font fg bg y x (take ((160 - x) / 8) text),
            on (leb→le (y + 12) 128 e),
            λ i j. rw e (glyphs-shows y (take ((160 - x) / 8) text) x s i j),
          )
          | inr e ↦ ([], off (leb→lt (y + 12) 128 e), λ i j. rw e)
        ]
