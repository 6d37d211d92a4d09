-- ===== src/Lcd/Print.antt =====
-- `st7735_print` of st7735.rs, and the characters of a text on the panel.
use stm32f3_oscilloscope.Prelude.{
  ℕ, suc, ◌+◌, ◌-◌, ◌/◌, ◌^◌, ◌≤◌, ◌<◌, ◌≡◌, refl, ap, sym, ◌∙◌, true, false, inl, inr, List, [],
  ◌∷◌, ◌++◌, length, take, take-nil, append-nil, ltb, ltb→lt, ltb→le, Bool-cases, arith,
}
use stm32f3_oscilloscope.Prelude.Word.{Build, Result, ok, >>=-of_ok, sub_u8-ok, add_u8-ok}
use stm32f3_oscilloscope.Device.{Action}
use stm32f3_oscilloscope.Lcd.{Panel, Color}
use stm32f3_oscilloscope.Lcd.Text.{putc, print_from, print}
use stm32f3_oscilloscope.Lcd.Glyph.{glyph, putc_unchecked-glyph}

module _ (font : List ℕ) (fg bg : Color) (y : ℕ) where
  -- The characters of a text, each 8 columns to the right of the one before.
  abbrev pub glyphs : ℕ → List ℕ → List Action
  glyphs x [] = []
  glyphs x (c ∷ text) = glyph font fg bg x y c ++ glyphs (x + 8) text

  -- The whole characters that fit between column `x` and the panel's right edge.
  abbrev pub room : Panel → ℕ → ℕ
  room p x = (p.width - x) / 8

  module _ (b : Build) (p : Panel) (size : length font ≡ 1536) (pw : p.width < 2 ^ 8)
      (ph : p.height < 2 ^ 8) (wide : 8 ≤ p.width) where
    print_from-glyphs :
        (text : List ℕ) (x : ℕ)
        → y + 12 ≤ p.height
        → print_from b font fg bg p y text x ≡ ok (glyphs x (take (room p x) text))
    unfolding print_from
    print_from-glyphs [] x hy =
        ap (λ (t : List ℕ). Result.ok (glyphs x t)) (sym (take-nil (room p x)))
    print_from-glyphs (c ∷ text) x hy = elim (Bool-cases (ltb (p.width - 8) x)) [
      | inl e ↦
          let full : room p x ≡ 0 = omega (arith, ltb→lt (p.width - 8) x e) in
          >>=-of_ok _ (sub_u8-ok b p.width 8 wide) (rw (e, full))
      | inr e ↦
          let fits : x ≤ p.width - 8 = ltb→le (p.width - 8) x e in
          let more : room p x ≡ suc (room p (x + 8)) = omega arith in
          >>=-of_ok _ (sub_u8-ok b p.width 8 wide) (
            rw (e, more)
              (>>=-of_ok _
                (putc_unchecked-glyph font fg bg b size x y c (omega arith) (omega arith))
                (>>=-of_ok _ (add_u8-ok b x 8 (omega arith))
                  (>>=-of_ok _ (print_from-glyphs text (x + 8) hy) refl))))
    ]

    -- On a panel of at least 8 by 12 pixels with sides below 256, and with a whole font table,
    -- `st7735_print` returns in both builds. A text whose line lies on the panel is printed from
    -- column `x` on, as far as whole characters fit before the right edge, and cut off there;
    -- otherwise nothing is sent.
    pub print-glyphs :
        (text : List ℕ) (x : ℕ)
        → 12 ≤ p.height
        → (y + 12 ≤ p.height → print b font fg bg p text x y ≡ ok (glyphs x (take (room p x) text)))
          × (p.height < y + 12 → print b font fg bg p text x y ≡ ok [])
    unfolding print
    print-glyphs text x tall = (
      λ hy.
          let shown : ltb (p.height - 12) y ≡ false = ground arith in
          >>=-of_ok _ (sub_u8-ok b p.height 12 tall) (rw shown (print_from-glyphs text x hy)),
      λ hy. ground arith,
    )

    module _ (x c : ℕ) (tall : 12 ≤ p.height) where
      putc-below : ltb (p.height - 12) y ≡ true → putc b font fg bg p x y c ≡ ok []
      unfolding putc
      putc-below below =
          >>=-of_ok _ (sub_u8-ok b p.width 8 wide) (elim (Bool-cases (ltb (p.width - 8) x)) [
            | inl e ↦ rw e refl
            | inr e ↦ rw e (>>=-of_ok _ (sub_u8-ok b p.height 12 tall) (rw below refl))
          ])

      putc-past : ltb (p.width - 8) x ≡ true → putc b font fg bg p x y c ≡ ok []
      unfolding putc
      putc-past past = >>=-of_ok _ (sub_u8-ok b p.width 8 wide) (rw past refl)

      putc-glyph :
          ltb (p.height - 12) y ≡ false
          → ltb (p.width - 8) x ≡ false
          → putc b font fg bg p x y c ≡ ok (glyph font fg bg x y c)
      unfolding putc
      putc-glyph shown inside = >>=-of_ok _ (sub_u8-ok b p.width 8 wide) (
          rw inside (
            >>=-of_ok _ (sub_u8-ok b p.height 12 tall) (
              rw shown (
                putc_unchecked-glyph font fg bg b size x y c
                  (omega (arith, ltb→le (p.width - 8) x inside))
                  (omega (arith, ltb→le (p.height - 12) y shown))))))

      -- On a panel of at least 8 by 12 pixels with sides below 256, and with a whole font table,
      -- `st7735_putc` is `st7735_print` of one character, in both builds.
      pub putc-print : putc b font fg bg p x y c ≡ print b font fg bg p (c ∷ []) x y
      putc-print =
          let (whole, nothing) = print-glyphs (c ∷ []) x tall in
          elim (Bool-cases (ltb (p.height - 12) y)) [
            | inl below ↦
                putc-below below ∙ sym (nothing (omega (arith, ltb→lt (p.height - 12) y below)))
            | inr shown ↦
                let printed = whole (omega (arith, ltb→le (p.height - 12) y shown)) in
                elim (Bool-cases (ltb (p.width - 8) x)) [
                  | inl past ↦
                      let full : room p x ≡ 0 = omega (arith, ltb→lt (p.width - 8) x past) in
                      putc-past past ∙ sym (printed ∙ rw full refl)
                  | inr inside ↦
                      let fits : x ≤ p.width - 8 = ltb→le (p.width - 8) x inside in
                      let more : room p x ≡ suc (room p (x + 8)) = omega arith in
                      putc-glyph shown inside ∙ sym (printed ∙ rw (more, take-nil, append-nil) refl)
                ]
          ]
