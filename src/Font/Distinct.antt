-- ===== src/Font/Distinct.antt =====
-- The table of parallax_8x12_font.rs: its size, and that its characters look different.
use stm32f3_oscilloscope.Prelude.{
  ℕ, zero, suc, ◌+◌, ◌*◌, ◌^◌, ◌<◌, ◌≡◌, refl, sym, ◌∙◌, ap, Bool, true, List, [], ◌∷◌, ◌++◌, ◌==◌,
  ◌&&◌, ltb, all, length, map, get_or, ==→≡, ltb→lt, arith,
}
use stm32f3_oscilloscope.Prelude.Distinct.{
  number, distinct, distinct_sound, length-map, get_or-map, list_ext, get_or-append_left,
  get_or-append_right, all_sound,
}
use stm32f3_oscilloscope.Font.{characters, concat, font_8x12}

characters-distinct : distinct (map number characters) ≡ true
unfolding characters
characters-distinct = refl

characters-length : length characters ≡ 128
unfolding characters
characters-length = refl

abbrev is_row : List ℕ → Bool
is_row r = (length r == 12) && all (λ x. ltb x (2 ^ 8)) r

pub characters-rows : all is_row characters ≡ true
unfolding characters
characters-rows = refl

is_row_sound :
    (rows : List (List ℕ)) (c : ℕ)
    → all is_row rows ≡ true
    → c < length rows
    → is_row (get_or rows c []) ≡ true
is_row_sound [] c h lt = absurd (omega arith)
is_row_sound (r ∷ rows) zero h lt = ground arith
is_row_sound (r ∷ rows) (suc c) h lt = is_row_sound rows c (ground arith) (omega arith)

-- A flat table of rows of 12, by the row and the place in it.
pub get_or-concat :
    (rows : List (List ℕ)) (c v : ℕ)
    → all is_row rows ≡ true
    → v < 12
    → get_or (concat rows) (c * 12 + v) 0 ≡ get_or (get_or rows c []) v 0
get_or-concat [] c v h lt = refl
get_or-concat (r ∷ rows) zero v h lt =
    ap (λ (i : ℕ). get_or (r ++ concat rows) i 0) (omega arith)
    ∙ get_or-append_left r (concat rows) v (omega (arith, ==→≡ (length r) 12 (ground arith)))
get_or-concat (r ∷ rows) (suc c) v h lt =
    get_or-append_right r (concat rows) (suc c * 12 + v) (c * 12 + v)
      (omega (arith, ==→≡ (length r) 12 (ground arith)))
    ∙ get_or-concat rows c v (ground arith) lt

pub font_8x12-length : length font_8x12 ≡ 1536
unfolding characters
font_8x12-length = refl

module _ (c : ℕ) (hc : c < 128) where
  character-is_row : is_row (get_or characters c []) ≡ true
  character-is_row = is_row_sound characters c characters-rows (omega (arith, characters-length))

  character-length : length (get_or characters c []) ≡ 12
  character-length = ==→≡ (length (get_or characters c [])) 12 (ground (arith, character-is_row))

  pub font_8x12-byte : (v : ℕ) → v < 12 → get_or font_8x12 (c * 12 + v) 0 < 2 ^ 8
  font_8x12-byte v hv = rw (get_or-concat characters c v characters-rows hv) (
      ltb→lt _ (2 ^ 8) (
        all_sound (λ x. ltb x (2 ^ 8)) (get_or characters c []) v (ground (arith, character-is_row))
          (omega (arith, character-length))))

pub font_8x12-distinct :
    (c c' : ℕ)
    → c < 128
    → c' < 128
    → ((v : ℕ) → v < 12 → get_or font_8x12 (c * 12 + v) 0 ≡ get_or font_8x12 (c' * 12 + v) 0)
    → c ≡ c'
font_8x12-distinct c c' hc hc' same =
    let equal : get_or characters c [] ≡ get_or characters c' [] =
      list_ext 12 (get_or characters c []) (get_or characters c' []) (character-length c hc)
        (character-length c' hc')
        (λ v hv.
          sym (get_or-concat characters c v characters-rows hv)
          ∙ same v hv
          ∙ get_or-concat characters c' v characters-rows hv) in
    distinct_sound (map number characters) c c' characters-distinct
      (omega (arith, length-map number characters, characters-length))
      (omega (arith, length-map number characters, characters-length))
      (get_or-map number characters c []
        ∙ ap number equal
        ∙ sym (get_or-map number characters c' []))
