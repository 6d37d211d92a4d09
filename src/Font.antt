-- ===== src/Font.antt =====
-- The font table of src/parallax_8x12_font.rs (Copyright (c) 2006 Parallax, Inc., under the licence
-- that stands there): 12 bytes for each of the characters 0 to 127.
pub mod Distinct
pub mod Readable
pub mod Padding
pub mod Labels
mod Tests
use stm32f3_oscilloscope.Prelude.{ℕ, List, [], ◌∷◌, ◌++◌}

abbrev pub row : ℕ → ℕ → ℕ → ℕ → ℕ → ℕ → ℕ → ℕ → ℕ → ℕ → ℕ → ℕ → List ℕ
row a b c d e f g h i j k l = a ∷ b ∷ c ∷ d ∷ e ∷ f ∷ g ∷ h ∷ i ∷ j ∷ k ∷ l ∷ []

-- The rows of the table, one for each character.
unfoldable pub characters : List (List ℕ)
characters =
    row 0x00 0x00 0x08 0x0c 0x7e 0x7e 0x0c 0x08 0x00 0x00 0x00 0x00
    ∷ row 0x00 0x00 0x10 0x30 0x7e 0x7e 0x30 0x10 0x00 0x00 0x00 0x00
    ∷ row 0x00 0x18 0x3c 0x7e 0x18 0x18 0x18 0x18 0x18 0x18 0x00 0x00
    ∷ row 0x00 0x18 0x18 0x18 0x18 0x18 0x18 0x7e 0x3c 0x18 0x00 0x00
    ∷ row 0x00 0x3c 0x42 0x81 0x81 0x81 0x81 0x81 0x42 0x3c 0x00 0x00
    ∷ row 0x00 0x3c 0x42 0x99 0xbd 0xbd 0xbd 0x99 0x42 0x3c 0x00 0x00
    ∷ row 0x00 0xff 0x81 0x81 0x81 0x81 0x81 0x81 0x81 0xff 0x00 0x00
    ∷ row 0x00 0xff 0xc3 0xe7 0xbd 0x99 0xbd 0xe7 0xc3 0xff 0x00 0x00
    ∷ row 0x02 0x06 0x0e 0x1e 0x3e 0x7e 0x3e 0x1e 0x0e 0x06 0x02 0x00
    ∷ row 0x00 0x00 0x00 0x1c 0x3e 0x3e 0x3e 0x1c 0x00 0x00 0x00 0x00
    ∷ row 0x00 0x00 0x00 0x00 0x00 0xc0 0xf0 0x30 0x18 0x18 0x18 0x18
    ∷ row 0x00 0x00 0x00 0x00 0x00 0x03 0x0f 0x0c 0x18 0x18 0x18 0x18
    ∷ row 0x18 0x18 0x18 0x18 0x30 0xf0 0xc0 0x00 0x00 0x00 0x00 0x00
    ∷ row 0x18 0x18 0x18 0x18 0x0c 0x0f 0x03 0x00 0x00 0x00 0x00 0x00
    ∷ row 0x00 0x00 0x00 0x00 0x00 0xff 0xff 0x00 0x00 0x00 0x00 0x00
    ∷ row 0x18 0x18 0x18 0x18 0x18 0x18 0x18 0x18 0x18 0x18 0x18 0x18
    ∷ row 0x00 0x00 0x00 0x00 0x00 0xff 0xff 0x18 0x18 0x18 0x18 0x18
    ∷ row 0x18 0x18 0x18 0x18 0x18 0xff 0xff 0x00 0x00 0x00 0x00 0x00
    ∷ row 0x18 0x18 0x18 0x18 0x18 0xf8 0xf8 0x18 0x18 0x18 0x18 0x18
    ∷ row 0x18 0x18 0x18 0x18 0x18 0x1f 0x1f 0x18 0x18 0x18 0x18 0x18
    ∷ row 0x18 0x18 0x18 0x18 0x18 0xff 0xff 0x18 0x18 0x18 0x18 0x18
    ∷ row 0x00 0xff 0xff 0x00 0x00 0xff 0xff 0x00 0x00 0xff 0xff 0x00
    ∷ row 0x66 0x33 0x99 0xcc 0x66 0x33 0x99 0xcc 0x66 0x33 0x99 0xcc
    ∷ row 0x66 0x66 0x66 0x66 0x66 0x66 0x66 0x66 0x66 0x66 0x66 0x66
    ∷ row 0x55 0xaa 0x55 0xaa 0x55 0xaa 0x55 0xaa 0x55 0xaa 0x55 0xaa
    ∷ row 0x0f 0x0f 0x0f 0x0f 0x0f 0x0f 0xff 0xff 0xff 0xff 0xff 0xff
    ∷ row 0x0f 0x0f 0x0f 0x0f 0x0f 0x0f 0xf0 0xf0 0xf0 0xf0 0xf0 0xf0
    ∷ row 0x0f 0x0f 0x0f 0x0f 0x0f 0x0f 0x0f 0x0f 0x0f 0x0f 0x0f 0x0f
    ∷ row 0x0f 0x0f 0x0f 0x0f 0x0f 0x0f 0x00 0x00 0x00 0x00 0x00 0x00
    ∷ row 0x00 0x00 0x00 0x00 0x00 0x00 0xff 0xff 0xff 0xff 0xff 0xff
    ∷ row 0x00 0x00 0x00 0x00 0x00 0x00 0xf0 0xf0 0xf0 0xf0 0xf0 0xf0
    ∷ row 0x00 0x00 0x00 0x00 0x00 0x00 0x0f 0x0f 0x0f 0x0f 0x0f 0x0f
    ∷ row 0x00 0x00 0x00 0x00 0x00 0x00 0x00 0x00 0x00 0x00 0x00 0x00
    ∷ row 0x00 0x18 0x3c 0x3c 0x3c 0x18 0x18 0x00 0x18 0x18 0x00 0x00
    ∷ row 0x00 0x66 0x66 0x66 0x66 0x00 0x00 0x00 0x00 0x00 0x00 0x00
    ∷ row 0x00 0x36 0x36 0x7f 0x36 0x36 0x36 0x7f 0x36 0x36 0x00 0x00
    ∷ row 0x18 0x18 0x7c 0x66 0x06 0x3c 0x60 0x66 0x3e 0x18 0x18 0x00
    ∷ row 0x00 0x00 0x00 0x46 0x66 0x30 0x18 0x0c 0x66 0x62 0x00 0x00
    ∷ row 0x00 0x0e 0x1b 0x1b 0x0e 0x5b 0x7b 0x33 0x3b 0x6e 0x00 0x00
    ∷ row 0x00 0x18 0x18 0x1c 0x0c 0x00 0x00 0x00 0x00 0x00 0x00 0x00
    ∷ row 0x00 0x30 0x18 0x0c 0x06 0x06 0x06 0x0c 0x18 0x30 0x00 0x00
    ∷ row 0x00 0x06 0x0c 0x18 0x30 0x30 0x30 0x18 0x0c 0x06 0x00 0x00
    ∷ row 0x00 0x00 0x00 0x66 0x3c 0xff 0x3c 0x66 0x00 0x00 0x00 0x00
    ∷ row 0x00 0x00 0x00 0x18 0x18 0x7e 0x18 0x18 0x00 0x00 0x00 0x00
    ∷ row 0x00 0x00 0x00 0x00 0x00 0x00 0x00 0x00 0x1c 0x1c 0x18 0x0c
    ∷ row 0x00 0x00 0x00 0x00 0x00 0x7e 0x00 0x00 0x00 0x00 0x00 0x00
    ∷ row 0x00 0x00 0x00 0x00 0x00 0x00 0x00 0x00 0x1c 0x1c 0x00 0x00
    ∷ row 0x00 0x00 0x40 0x60 0x30 0x18 0x0c 0x06 0x03 0x01 0x00 0x00
    ∷ row 0x00 0x3e 0x63 0x73 0x7b 0x6b 0x6f 0x67 0x63 0x3e 0x00 0x00
    ∷ row 0x00 0x10 0x18 0x1e 0x18 0x18 0x18 0x18 0x18 0x7e 0x00 0x00
    ∷ row 0x00 0x3c 0x66 0x66 0x60 0x30 0x18 0x0c 0x66 0x7e 0x00 0x00
    ∷ row 0x00 0x3c 0x66 0x60 0x60 0x38 0x60 0x60 0x66 0x3c 0x00 0x00
    ∷ row 0x00 0x30 0x38 0x3c 0x36 0x33 0x7f 0x30 0x30 0x78 0x00 0x00
    ∷ row 0x00 0x7e 0x06 0x06 0x06 0x3e 0x60 0x60 0x66 0x3c 0x00 0x00
    ∷ row 0x00 0x38 0x0c 0x06 0x06 0x3e 0x66 0x66 0x66 0x3c 0x00 0x00
    ∷ row 0x00 0x7f 0x63 0x63 0x60 0x30 0x18 0x0c 0x0c 0x0c 0x00 0x00
    ∷ row 0x00 0x3c 0x66 0x66 0x6e 0x3c 0x76 0x66 0x66 0x3c 0x00 0x00
    ∷ row 0x00 0x3c 0x66 0x66 0x66 0x7c 0x60 0x60 0x30 0x1c 0x00 0x00
    ∷ row 0x00 0x00 0x00 0x1c 0x1c 0x00 0x00 0x1c 0x1c 0x00 0x00 0x00
    ∷ row 0x00 0x00 0x00 0x00 0x1c 0x1c 0x00 0x00 0x1c 0x1c 0x18 0x0c
    ∷ row 0x00 0x60 0x30 0x18 0x0c 0x06 0x0c 0x18 0x30 0x60 0x00 0x00
    ∷ row 0x00 0x00 0x00 0x00 0x7e 0x00 0x7e 0x00 0x00 0x00 0x00 0x00
    ∷ row 0x00 0x06 0x0c 0x18 0x30 0x60 0x30 0x18 0x0c 0x06 0x00 0x00
    ∷ row 0x00 0x3c 0x66 0x60 0x30 0x18 0x18 0x00 0x18 0x18 0x00 0x00
    ∷ row 0x00 0x3e 0x67 0x63 0x7b 0x7b 0x3b 0x03 0x07 0x3e 0x00 0x00
    ∷ row 0x00 0x3c 0x66 0x66 0x66 0x7e 0x66 0x66 0x66 0x66 0x00 0x00
    ∷ row 0x00 0x3f 0x66 0x66 0x66 0x3e 0x66 0x66 0x66 0x3f 0x00 0x00
    ∷ row 0x00 0x3c 0x66 0x63 0x03 0x03 0x03 0x63 0x66 0x3c 0x00 0x00
    ∷ row 0x00 0x1f 0x36 0x66 0x66 0x66 0x66 0x66 0x36 0x1f 0x00 0x00
    ∷ row 0x00 0x7f 0x46 0x06 0x26 0x3e 0x26 0x06 0x46 0x7f 0x00 0x00
    ∷ row 0x00 0x7f 0x46 0x06 0x26 0x3e 0x26 0x06 0x06 0x0f 0x00 0x00
    ∷ row 0x00 0x3c 0x66 0x63 0x03 0x03 0x73 0x63 0x66 0x7c 0x00 0x00
    ∷ row 0x00 0x63 0x63 0x63 0x63 0x7f 0x63 0x63 0x63 0x63 0x00 0x00
    ∷ row 0x00 0x3c 0x18 0x18 0x18 0x18 0x18 0x18 0x18 0x3c 0x00 0x00
    ∷ row 0x00 0x78 0x30 0x30 0x30 0x30 0x33 0x33 0x33 0x1e 0x00 0x00
    ∷ row 0x00 0x67 0x66 0x36 0x36 0x1e 0x36 0x36 0x66 0x67 0x00 0x00
    ∷ row 0x00 0x0f 0x06 0x06 0x06 0x06 0x46 0x66 0x66 0x7f 0x00 0x00
    ∷ row 0x00 0x63 0x77 0x7f 0x7f 0x6b 0x63 0x63 0x63 0x63 0x00 0x00
    ∷ row 0x00 0x63 0x63 0x67 0x6f 0x7f 0x7b 0x73 0x63 0x63 0x00 0x00
    ∷ row 0x00 0x1c 0x36 0x63 0x63 0x63 0x63 0x63 0x36 0x1c 0x00 0x00
    ∷ row 0x00 0x3f 0x66 0x66 0x66 0x3e 0x06 0x06 0x06 0x0f 0x00 0x00
    ∷ row 0x00 0x1c 0x36 0x63 0x63 0x63 0x63 0x7b 0x36 0x3c 0x60 0x00
    ∷ row 0x00 0x3f 0x66 0x66 0x66 0x3e 0x36 0x66 0x66 0x67 0x00 0x00
    ∷ row 0x00 0x3c 0x66 0x66 0x06 0x1c 0x30 0x66 0x66 0x3c 0x00 0x00
    ∷ row 0x00 0x7e 0x5a 0x18 0x18 0x18 0x18 0x18 0x18 0x3c 0x00 0x00
    ∷ row 0x00 0x66 0x66 0x66 0x66 0x66 0x66 0x66 0x66 0x3c 0x00 0x00
    ∷ row 0x00 0x66 0x66 0x66 0x66 0x66 0x66 0x66 0x3c 0x18 0x00 0x00
    ∷ row 0x00 0x63 0x63 0x63 0x63 0x6b 0x6b 0x36 0x36 0x36 0x00 0x00
    ∷ row 0x00 0x66 0x66 0x66 0x3c 0x18 0x3c 0x66 0x66 0x66 0x00 0x00
    ∷ row 0x00 0x66 0x66 0x66 0x66 0x3c 0x18 0x18 0x18 0x3c 0x00 0x00
    ∷ row 0x00 0x7f 0x63 0x31 0x18 0x0c 0x06 0x43 0x63 0x7f 0x00 0x00
    ∷ row 0x00 0x3c 0x0c 0x0c 0x0c 0x0c 0x0c 0x0c 0x0c 0x3c 0x00 0x00
    ∷ row 0x00 0x00 0x01 0x03 0x06 0x0c 0x18 0x30 0x60 0x40 0x00 0x00
    ∷ row 0x00 0x3c 0x30 0x30 0x30 0x30 0x30 0x30 0x30 0x3c 0x00 0x00
    ∷ row 0x00 0x08 0x1c 0x36 0x63 0x00 0x00 0x00 0x00 0x00 0x00 0x00
    ∷ row 0x00 0x00 0x00 0x00 0x00 0x00 0x00 0x00 0x00 0x00 0xff 0xff
    ∷ row 0x00 0x00 0x00 0x0c 0x1c 0x38 0x30 0x00 0x00 0x00 0x00 0x00
    ∷ row 0x00 0x00 0x00 0x00 0x1e 0x30 0x3e 0x33 0x33 0x6e 0x00 0x00
    ∷ row 0x00 0x07 0x06 0x06 0x3e 0x66 0x66 0x66 0x66 0x3b 0x00 0x00
    ∷ row 0x00 0x00 0x00 0x00 0x3c 0x66 0x06 0x06 0x66 0x3c 0x00 0x00
    ∷ row 0x00 0x38 0x30 0x30 0x3e 0x33 0x33 0x33 0x33 0x6e 0x00 0x00
    ∷ row 0x00 0x00 0x00 0x00 0x3c 0x66 0x7e 0x06 0x66 0x3c 0x00 0x00
    ∷ row 0x00 0x38 0x6c 0x0c 0x0c 0x3e 0x0c 0x0c 0x0c 0x1e 0x00 0x00
    ∷ row 0x00 0x00 0x00 0x00 0x6e 0x33 0x33 0x33 0x3e 0x30 0x33 0x1e
    ∷ row 0x00 0x07 0x06 0x06 0x36 0x6e 0x66 0x66 0x66 0x67 0x00 0x00
    ∷ row 0x00 0x18 0x18 0x00 0x1c 0x18 0x18 0x18 0x18 0x7e 0x00 0x00
    ∷ row 0x00 0x60 0x60 0x00 0x70 0x60 0x60 0x60 0x60 0x66 0x66 0x3c
    ∷ row 0x00 0x07 0x06 0x06 0x66 0x36 0x1e 0x36 0x66 0x67 0x00 0x00
    ∷ row 0x00 0x1e 0x18 0x18 0x18 0x18 0x18 0x18 0x18 0x7e 0x00 0x00
    ∷ row 0x00 0x00 0x00 0x00 0x3f 0x6b 0x6b 0x6b 0x6b 0x6b 0x00 0x00
    ∷ row 0x00 0x00 0x00 0x00 0x3e 0x66 0x66 0x66 0x66 0x66 0x00 0x00
    ∷ row 0x00 0x00 0x00 0x00 0x3c 0x66 0x66 0x66 0x66 0x3c 0x00 0x00
    ∷ row 0x00 0x00 0x00 0x00 0x3b 0x66 0x66 0x66 0x66 0x3e 0x06 0x0f
    ∷ row 0x00 0x00 0x00 0x00 0x6e 0x33 0x33 0x33 0x33 0x3e 0x30 0x78
    ∷ row 0x00 0x00 0x00 0x00 0x37 0x76 0x6e 0x06 0x06 0x0f 0x00 0x00
    ∷ row 0x00 0x00 0x00 0x00 0x3c 0x66 0x0c 0x30 0x66 0x3c 0x00 0x00
    ∷ row 0x00 0x00 0x08 0x0c 0x7e 0x0c 0x0c 0x0c 0x6c 0x38 0x00 0x00
    ∷ row 0x00 0x00 0x00 0x00 0x33 0x33 0x33 0x33 0x33 0x6e 0x00 0x00
    ∷ row 0x00 0x00 0x00 0x00 0x66 0x66 0x66 0x66 0x3c 0x18 0x00 0x00
    ∷ row 0x00 0x00 0x00 0x00 0x63 0x63 0x6b 0x6b 0x36 0x36 0x00 0x00
    ∷ row 0x00 0x00 0x00 0x00 0x63 0x36 0x1c 0x1c 0x36 0x63 0x00 0x00
    ∷ row 0x00 0x00 0x00 0x00 0x66 0x66 0x66 0x66 0x7c 0x60 0x30 0x1c
    ∷ row 0x00 0x00 0x00 0x00 0x7e 0x62 0x30 0x0c 0x46 0x7e 0x00 0x00
    ∷ row 0x00 0x70 0x18 0x18 0x0c 0x06 0x0c 0x18 0x18 0x70 0x00 0x00
    ∷ row 0x00 0x18 0x18 0x18 0x18 0x18 0x18 0x18 0x18 0x18 0x00 0x00
    ∷ row 0x00 0x0e 0x18 0x18 0x30 0x60 0x30 0x18 0x18 0x0e 0x00 0x00
    ∷ row 0x00 0xce 0xdb 0x73 0x00 0x00 0x00 0x00 0x00 0x00 0x00 0x00
    ∷ row 0x00 0x00 0x18 0x18 0x7e 0x18 0x18 0x00 0x7e 0x00 0x00 0x00
    ∷ []

abbrev pub concat : List (List ℕ) → List ℕ
concat [] = []
concat (r ∷ rows) = r ++ concat rows

-- `FONT_8X12`
abbrev pub font_8x12 : List ℕ
font_8x12 = concat characters
