-- ===== src/Lcd/Silent.antt =====
-- The drawing of st7735.rs and the registers of the other peripherals.
use stm32f3_oscilloscope.Prelude.{
  ℕ, zero, suc, ◌+◌, ◌≡◌, refl, ◌∙◌, inl, inr, List, [], ◌∷◌, ◌++◌, ltb, Bool-cases,
}
use stm32f3_oscilloscope.Device.{Action, Registers, run}
use stm32f3_oscilloscope.Device.Safety.{run-append}
use stm32f3_oscilloscope.Lcd.{Color, send_times}
use stm32f3_oscilloscope.Lcd.Glyph.{glyph, glyph_pixel}
use stm32f3_oscilloscope.Lcd.Glyph.Stream.{send_stream}
use stm32f3_oscilloscope.Lcd.Print.{glyphs}

-- A sequence of actions that leaves the registers as they are.
abbrev pub IsSilent : List Action → Type 0
IsSilent actions = (r : Registers) → run actions r ≡ r

pub IsSilent-append : (xs ys : List Action) → IsSilent xs → IsSilent ys → IsSilent (xs ++ ys)
IsSilent-append xs ys hx hy r = run-append xs ys r ∙ hy (run xs r) ∙ hx r

pub send_times-IsSilent : (n color : ℕ) → IsSilent (send_times n color)
unfolding send_times
send_times-IsSilent zero color r = refl
send_times-IsSilent (suc n) color r = send_times-IsSilent n color r

send_stream-IsSilent : (f : ℕ → ℕ) (n i : ℕ) → IsSilent (send_stream f n i)
send_stream-IsSilent f zero i r = refl
send_stream-IsSilent f (suc n) i r = send_stream-IsSilent f n (i + 1) r

module _ (font : List ℕ) (fg bg : Color) where
  glyph-IsSilent : (x y c : ℕ) → IsSilent (glyph font fg bg x y c)
  glyph-IsSilent x y c r = elim (Bool-cases (ltb c 128)) [
    | inl e ↦ rw e (send_stream-IsSilent (glyph_pixel font fg bg c) 96 0 r)
    | inr e ↦ rw e
  ]

  pub glyphs-IsSilent : (y x : ℕ) (text : List ℕ) → IsSilent (glyphs font fg bg y x text)
  glyphs-IsSilent y x [] = λ r. refl
  glyphs-IsSilent y x (c ∷ text) =
      IsSilent-append (glyph font fg bg x y c) (glyphs font fg bg y (x + 8) text)
        (glyph-IsSilent x y c) (glyphs-IsSilent y (x + 8) text)
