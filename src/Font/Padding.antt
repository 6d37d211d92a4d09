-- ===== src/Font/Padding.antt =====
-- Texts in the font of parallax_8x12_font.rs that are filled up with blanks.
use stm32f3_oscilloscope.Prelude.{
  ℕ, zero, suc, ◌-◌, ◌*◌, ◌<◌, ◌≤◌, ◌≡◌, refl, sym, ap, ◌∙◌, true, List, [], ◌∷◌, map, length,
  get_or, replicate, All, All-get_or, arith,
}
use stm32f3_oscilloscope.Prelude.Bits.{bit-zero}
use stm32f3_oscilloscope.Prelude.Distinct.{
  number, distinct, distinct_sound, length-map, get_or-map, get_or-default,
}
use stm32f3_oscilloscope.Lcd.{green, black}
use stm32f3_oscilloscope.Screen.Writing.{letter, text_pixel}
use stm32f3_oscilloscope.Font.{characters, font_8x12}
use stm32f3_oscilloscope.Font.Distinct.{characters-rows, get_or-concat}
use stm32f3_oscilloscope.Font.Readable.{IsAscii, text_pixel-injective}

-- The character 32 is blank.
space-row : get_or characters 32 [] ≡ replicate 12 0
unfolding characters
space-row = refl

get_or-zeros : (n i : ℕ) → get_or (replicate {A = ℕ} n 0) i 0 ≡ 0
get_or-zeros zero i = refl
get_or-zeros (suc n) zero = refl
get_or-zeros (suc n) (suc i) = get_or-zeros n i

space-blank : (u v : ℕ) → v < 12 → letter font_8x12 green black 32 u v ≡ 0
space-blank u v hv =
    rw (get_or-concat characters 32 v characters-rows hv, space-row, get_or-zeros 12 v, bit-zero u)

spaces-blank : (n u v : ℕ) → v < 12 → text_pixel font_8x12 green black (replicate n 32) u v 0 ≡ 0
spaces-blank zero u v hv = refl
spaces-blank (suc n) u v hv = ground (arith, spaces-blank n (u - 8) v hv, space-blank u v hv)

-- A text of `n` characters that looks like `text` on a black line.
abbrev pub pad : ℕ → List ℕ → List ℕ
pad zero text = []
pad (suc n) [] = 32 ∷ pad n []
pad (suc n) (c ∷ text) = c ∷ pad n text

length-pad : (n : ℕ) (text : List ℕ) → length (pad n text) ≡ n
length-pad zero text = refl
length-pad (suc n) [] = ap suc (length-pad n [])
length-pad (suc n) (c ∷ text) = ap suc (length-pad n text)

pad-nil : (n : ℕ) → pad n [] ≡ replicate n 32
pad-nil zero = refl
pad-nil (suc n) = ap (λ (t : List ℕ). 32 ∷ t) (pad-nil n)

text_pixel-pad :
    (n : ℕ) (text : List ℕ) (u v : ℕ)
    → length text ≤ n
    → v < 12
    → text_pixel font_8x12 green black (pad n text) u v 0
      ≡ text_pixel font_8x12 green black text u v 0
text_pixel-pad n [] u v h hv = rw (pad-nil n) (spaces-blank n u v hv)
text_pixel-pad zero (c ∷ text) u v h hv = absurd (omega arith)
text_pixel-pad (suc n) (c ∷ text) u v h hv = rw (text_pixel-pad n text (u - 8) v (omega arith) hv)

-- Entries of a table that differ in their padded texts are told apart by what a line shows.
module _ {ℓ} {A : Type ℓ} (n : ℕ) (text : A → List ℕ) (table : List A) (d : A)
    (differ : distinct (map (λ a. number (pad n (text a))) table) ≡ true)
    (plain : All (λ a. (length (text a) ≤ n) × All IsAscii (pad n (text a))) table) where
  pub texts-told :
      (i k : ℕ)
      → i < length table
      → k < length table
      → ((u v : ℕ)
          → u < 8 * n
          → v < 12
          → text_pixel font_8x12 green black (text (get_or table i d)) u v 0
            ≡ text_pixel font_8x12 green black (text (get_or table k d)) u v 0)
      → i ≡ k
  texts-told i k hi hk same =
      let f : A → ℕ = λ a. number (pad n (text a)) in
      let (short, ascii) = All-get_or _ table i d plain hi in
      let (short', ascii') = All-get_or _ table k d plain hk in
      let xs = text (get_or table i d) in
      let ys = text (get_or table k d) in
      let equal : pad n xs ≡ pad n ys =
        text_pixel-injective green black (λ e. omega arith) (pad n xs) (pad n ys) (λ u v. 0)
          (λ u v. 0) (length-pad n xs ∙ sym (length-pad n ys)) ascii ascii'
          (λ u v hu hv.
            text_pixel-pad n xs u v short hv
            ∙ same u v (omega (arith, length-pad n xs)) hv
            ∙ sym (text_pixel-pad n ys u v short' hv)) in
      let entry_number : (j : ℕ)
          → j < length table
          → get_or (map f table) j 0 ≡ f (get_or table j d) =
        λ j hj.
          get_or-default (map f table) j 0 (f d) (omega (arith, length-map f table))
          ∙ get_or-map f table j d in
      distinct_sound (map f table) i k differ (omega (arith, length-map f table))
        (omega (arith, length-map f table))
        (entry_number i hi ∙ ap number equal ∙ sym (entry_number k hk))
