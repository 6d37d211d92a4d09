-- ===== src/Font/Readable.antt =====
-- That a text printed by st7735.rs in the font of parallax_8x12_font.rs can be read off the display.
use stm32f3_oscilloscope.Prelude.{
  ℕ, ◌+◌, ◌-◌, ◌*◌, ◌/◌, ◌<◌, ◌≤◌, ◌≡◌, ◌≢◌, sym, ◌∙◌, refl, List, [], ◌∷◌, All, length, take,
  take_all, get_or, ltb, leb, true, false, if◌then◌else◌, arith,
}
use stm32f3_oscilloscope.Prelude.Bits.{bit, bit_ext, bit-le-one}
use stm32f3_oscilloscope.Prelude.Word.{Build, ok}
use stm32f3_oscilloscope.Device.{Action}
use stm32f3_oscilloscope.Lcd.{Color, color_code, landscape}
use stm32f3_oscilloscope.Lcd.Text.{print}
use stm32f3_oscilloscope.Lcd.Glyph.{ink}
use stm32f3_oscilloscope.Screen.{Screen, Driver, show}
use stm32f3_oscilloscope.Screen.Writing.{letter, text_pixel, line_pixel, print-shows}
use stm32f3_oscilloscope.Font.{font_8x12}
use stm32f3_oscilloscope.Font.Distinct.{font_8x12-length, font_8x12-byte, font_8x12-distinct}

abbrev pub IsAscii : ℕ → Type 0
IsAscii c = c < 128

module _ (fg bg : Color) where
  text_pixel-first :
      (c : ℕ) (text : List ℕ) (u v old : ℕ)
      → u < 8
      → c < 128
      → text_pixel font_8x12 fg bg (c ∷ text) u v old ≡ letter font_8x12 fg bg c u v
  text_pixel-first c text u v old hu hc =
      let within : ltb u 8 ≡ true = ground arith in
      let known : ltb c 128 ≡ true = ground arith in rw (within, known)

  text_pixel-rest :
      (c : ℕ) (text : List ℕ) (u v old : ℕ)
      → text_pixel font_8x12 fg bg (c ∷ text) (u + 8) v old
        ≡ text_pixel font_8x12 fg bg text u v old
  text_pixel-rest c text u v old =
      let past : ltb (u + 8) 8 ≡ false = ground arith in
      let back : u + 8 - 8 ≡ u = omega arith in rw (past, back)

  -- A pixel of a text on the panel, by its place in the line.
  shown-text_pixel :
      (text : List ℕ) (x y u v old : ℕ)
      → x + 8 * length text ≤ 160
      → y + 12 ≤ 128
      → v < 12
      → (if leb (y + 12) 128
          then line_pixel font_8x12 fg bg (take ((160 - x) / 8) text) x y (x + u) (y + v) old
          else old)
        ≡ text_pixel font_8x12 fg bg text u v old
  shown-text_pixel text x y u v old hx hy hv =
      let on : leb (y + 12) 128 ≡ true = ground arith in
      let right : leb x (x + u) ≡ true = ground arith in
      let below : leb y (y + v) ≡ true = ground arith in
      let above : ltb (y + v) (y + 12) ≡ true = ground arith in
      let column : x + u - x ≡ u = omega arith in
      let line : y + v - y ≡ v = omega arith in
      rw (on, take_all ((160 - x) / 8) text (omega arith), right, below, above, column, line)

module _ (fg bg : Color) (differ : color_code fg ≢ color_code bg) where
  ink-injective :
      (font : List ℕ) (s s' : ℕ) → s ≤ 1 → s' ≤ 1 → ink font fg bg s ≡ ink font fg bg s' → s ≡ s'
  ink-injective font s s' h h' e = ground (arith, differ)

  letter-injective :
      (c c' : ℕ)
      → c < 128
      → c' < 128
      → ((u v : ℕ) → u < 8 → v < 12 → letter font_8x12 fg bg c u v ≡ letter font_8x12 fg bg c' u v)
      → c ≡ c'
  letter-injective c c' hc hc' same = font_8x12-distinct c c' hc hc' (λ v hv.
      bit_ext 8 (get_or font_8x12 (c * 12 + v) 0) (get_or font_8x12 (c' * 12 + v) 0)
        (font_8x12-byte c hc v hv) (font_8x12-byte c' hc' v hv)
        (λ u hu.
          ink-injective font_8x12 (bit (get_or font_8x12 (c * 12 + v) 0) u)
            (bit (get_or font_8x12 (c' * 12 + v) 0) u)
            (bit-le-one (get_or font_8x12 (c * 12 + v) 0) u)
            (bit-le-one (get_or font_8x12 (c' * 12 + v) 0) u) (same u v hu hv)))

  pub text_pixel-injective :
      (text text' : List ℕ) (old old' : ℕ → ℕ → ℕ)
      → length text ≡ length text'
      → All IsAscii text
      → All IsAscii text'
      → ((u v : ℕ)
          → u < 8 * length text
          → v < 12
          → text_pixel font_8x12 fg bg text u v (old u v)
            ≡ text_pixel font_8x12 fg bg text' u v (old' u v))
      → text ≡ text'
  text_pixel-injective [] [] old old' e h h' same = refl
  text_pixel-injective [] (c' ∷ text') old old' e h h' same = absurd (omega arith)
  text_pixel-injective (c ∷ text) [] old old' e h h' same = absurd (omega arith)
  text_pixel-injective (c ∷ text) (c' ∷ text') old old' e h h' same =
      let first : c ≡ c' = letter-injective c c' h.0 h'.0 (λ u v hu hv.
        sym (text_pixel-first fg bg c text u v (old u v) hu h.0)
        ∙ same u v (omega arith) hv
        ∙ text_pixel-first fg bg c' text' u v (old' u v) hu h'.0) in
      let rest : text ≡ text' =
        text_pixel-injective text text' (λ u. old (u + 8)) (λ u. old' (u + 8)) (omega arith) h.1
          h'.1
          (λ u v hu hv.
            sym (text_pixel-rest fg bg c text u v (old (u + 8) v))
            ∙ same (u + 8) v (omega arith) hv
            ∙ text_pixel-rest fg bg c' text' u v (old' (u + 8) v)) in
      rw (first, rest)

-- In the font of the program, and in two colors that differ: two texts of the same number of
-- characters from 0 to 127, whose line lies on the panel, are printed by `st7735_print` in both
-- builds, and if they look the same on the pixels of the line, whatever was there before, they are
-- the same text.
pub print-readable :
    (d : Driver) (b : Build) (fg bg : Color) (text text' : List ℕ) (x y : ℕ) (s s' : Screen)
    → color_code fg ≢ color_code bg
    → length text ≡ length text'
    → All IsAscii text
    → All IsAscii text'
    → x + 8 * length text ≤ 160
    → y + 12 ≤ 128
    → (actions : List Action) × (actions' : List Action) × (print b font_8x12 fg bg landscape text x
          y
        ≡ ok actions)
      × (print b font_8x12 fg bg landscape text' x y ≡ ok actions')
      × (((i j : ℕ)
            → x ≤ i
            → i < x + 8 * length text
            → y ≤ j
            → j < y + 12
            → (show d actions s).frame i j ≡ (show d actions' s').frame i j)
          → text ≡ text')
print-readable d b fg bg text text' x y s s' differ e h h' hx hy =
    let (actions, prints, shows) = print-shows font_8x12 fg bg d b text x y s font_8x12-length in
    let (actions', prints', shows') =
      print-shows font_8x12 fg bg d b text' x y s' font_8x12-length in
    (
      actions,
      actions',
      prints,
      prints',
      λ same.
          text_pixel-injective fg bg differ text text' (λ u v. s.frame (x + u) (y + v))
            (λ u v. s'.frame (x + u) (y + v)) e h h'
            (λ u v hu hv.
              sym (shown-text_pixel fg bg text x y u v (s.frame (x + u) (y + v)) hx hy hv)
              ∙ sym (shows (x + u) (y + v))
              ∙ same (x + u) (y + v) (omega arith) (omega arith) (omega arith) (omega arith)
              ∙ shows' (x + u) (y + v)
              ∙ shown-text_pixel fg bg text' x y u v (s'.frame (x + u) (y + v)) (omega arith) hy
                  hv),
    )
