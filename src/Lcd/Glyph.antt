-- ===== src/Lcd/Glyph.antt =====
-- `st7735_putc_unchecked` of st7735.rs, and the bitmap of a character.
pub mod Stream
use stm32f3_oscilloscope.Prelude.{
  ℕ, zero, suc, ◌+◌, ◌*◌, ◌/◌, ◌%◌, ◌^◌, ◌≤◌, ◌<◌, ◌≡◌, refl, sym, ◌∙◌, ap, List, [], ◌∷◌, ◌++◌,
  length, get_or, get_elem?-eq-get_or, ◌==◌, if◌then◌else◌, bit_and, arith, ltb, leb, leb→lt,
  Bool-cases, inl, inr,
}
use stm32f3_oscilloscope.Prelude.Bits.{bit, bit_and-one, bit-add_one}
use stm32f3_oscilloscope.Prelude.Word.{Build, Result, ok, >>=-of_ok, index-eq-get_or}
use stm32f3_oscilloscope.Device.{Action, lcd, set_addr_window}
use stm32f3_oscilloscope.Lcd.{Panel, Color, color_code, send_color}
use stm32f3_oscilloscope.Lcd.Text.{send_row, send_rows, putc_unchecked}
use Stream.{send_stream, send_stream-ext, send_stream-shift, send_stream-append}

module _ (font : List ℕ) (fg bg : Color) where
  abbrev pub ink : ℕ → ℕ
  ink set = if set == 1 then color_code fg else color_code bg

  -- Pixel `k` of character `c`, in reading order, eight to a row: the lowest bit of a row's byte is
  -- its leftmost pixel.
  abbrev pub glyph_pixel : ℕ → ℕ → ℕ
  glyph_pixel c k = ink (bit (get_or font (c * 12 + k / 8) 0) (k % 8))

  -- A window of 8 by 12 pixels, and its 96 pixels; nothing for a character past the table.
  abbrev pub glyph : ℕ → ℕ → ℕ → List Action
  glyph x y c =
      if ltb c 128
      then lcd (set_addr_window x y (x + 7) (y + 11)) ∷ send_stream (glyph_pixel c) 96 0
      else []

  row-stream :
      (b : Build) (n bits : ℕ)
      → send_row b font fg bg n bits ≡ send_stream (λ k. ink (bit bits k)) n 0
  unfolding send_row
  row-stream b zero bits = refl
  row-stream b (suc n) bits =
      rw (bit_and-one, row-stream b n (bits / 2))
        (ap (λ (later : List Action). send_color (ink (bits % 2)) ++ later) (shifted ∙ next))
    where
      shifted :
          send_stream (λ k. ink (bit (bits / 2) k)) n 0
          ≡ send_stream (λ k. ink (bit bits (k + 1))) n 0
      shifted =
          send_stream-ext (λ k. ink (bit (bits / 2) k)) (λ k. ink (bit bits (k + 1))) n 0
            (λ k lo hi. rw bit-add_one)

      next :
          send_stream (λ k. ink (bit bits (k + 1))) n 0
          ≡ send_stream (λ k. ink (bit bits k)) n (0 + 1)
      next = send_stream-shift (λ k. ink (bit bits k)) 1 n 0 (0 + 1) refl

  -- Row `y` of a character is a stretch of its pixels.
  row-glyph :
      (b : Build) (c y : ℕ)
      → send_row b font fg bg 8 (get_or font (c * 12 + y) 0) ≡ send_stream (glyph_pixel c) 8 (8 * y)
  row-glyph b c y =
      row-stream b 8 (get_or font (c * 12 + y) 0)
      ∙ send_stream-ext (λ k. ink (bit (get_or font (c * 12 + y) 0) k))
          (λ k. glyph_pixel c (k + 8 * y)) 8 0 (λ k lo hi. same k (omega arith))
      ∙ send_stream-shift (glyph_pixel c) (8 * y) 8 0 (8 * y) (omega arith)
    where
      same : (k : ℕ) → k < 8 → ink (bit (get_or font (c * 12 + y) 0) k) ≡ glyph_pixel c (k + 8 * y)
      same k h =
          let row : (k + 8 * y) / 8 ≡ y = omega arith in
          let column : (k + 8 * y) % 8 ≡ k = omega arith in rw (row, column)

  module _ (b : Build) (size : length font ≡ 1536) where
    rows-glyph :
        (c left y : ℕ)
        → c < 128
        → y + left ≡ 12
        → send_rows b font fg bg c left y ≡ ok (send_stream (glyph_pixel c) (8 * left) (8 * y))
    unfolding send_rows
    rows-glyph c zero y hc e = refl
    rows-glyph c (suc left) y hc e =
        let later = send_stream (glyph_pixel c) (8 * left) (8 * (y + 1)) in
        >>=-of_ok _ (index-eq-get_or font (c * 12 + y) 0 (omega arith)) (
          >>=-of_ok _ (rows-glyph c left (y + 1) hc (omega arith)) (
            ap (λ (row : List Action). Result.ok (row ++ later)) (row-glyph b c y)
            ∙ ap Result.ok (
                send_stream-append (glyph_pixel c) 8 (8 * left) (8 * y) (8 * (y + 1)) (omega arith))
            ∙ ap (λ (n : ℕ). Result.ok (send_stream (glyph_pixel c) n (8 * y))) (omega arith)))

    -- With a table of 12 bytes for each of 128 characters, and the cell within the `u8` coordinates,
    -- `st7735_putc_unchecked` returns in both builds: for a character of the table it opens a
    -- window of 8 by 12 pixels and sends the 96 pixels of the character's bitmap in reading
    -- order, in the foreground color where the bit is set; for another it sends nothing.
    pub putc_unchecked-glyph :
        (x y c : ℕ)
        → x + 7 < 2 ^ 8
        → y + 11 < 2 ^ 8
        → putc_unchecked b font fg bg x y c ≡ ok (glyph x y c)
    unfolding putc_unchecked
    putc_unchecked-glyph x y c hx hy = elim (Bool-cases (leb 128 c)) [
      | inl e ↦ ground arith
      | inr e ↦ rw (e, rows-glyph c 12 0 (leb→lt 128 c e) refl) (ground arith)
    ]
