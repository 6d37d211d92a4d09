-- ===== src/Spi/Pixels.antt =====
-- The pixels that the drawing of st7735.rs sends, over either form of the connection.
use stm32f3_oscilloscope.Prelude.{
  ℕ, zero, suc, ◌+◌, ◌*◌, ◌/◌, ◌%◌, ◌^◌, ◌<◌, ◌≡◌, refl, true, List, [], ◌∷◌, ◌++◌, All, replicate,
  bit_and, arith, ltb, length, get_or, ◌==◌, Bool-cases, inl, inr, ◌∙◌,
}
use stm32f3_oscilloscope.Prelude.Bits.{bit, bit_and-byte}
use stm32f3_oscilloscope.Device.{Action, lcd, send_data, set_addr_window}
use stm32f3_oscilloscope.Lcd.{Color, black, blue, green, red, white, color_code, send_times}
use stm32f3_oscilloscope.Lcd.Text.{putc_unchecked}
use stm32f3_oscilloscope.Lcd.Glyph.{glyph_pixel, putc_unchecked-glyph}
use stm32f3_oscilloscope.Lcd.Glyph.Stream.{send_stream}
use stm32f3_oscilloscope.Prelude.Word.{Build, ok}
use stm32f3_oscilloscope.Spi.{Token}
use stm32f3_oscilloscope.Spi.Link.{Link, IsByte, SendsAll, SendsAll-sent, SendsAll-total}

-- The bytes of the data calls in a sequence of actions.
abbrev pub data_bytes : List Action → List Token
data_bytes [] = []
data_bytes (lcd (send_data byte) ∷ later) = (true, byte) ∷ data_bytes later
data_bytes (a ∷ later) = data_bytes later

-- The colors in a sequence of data bytes, two to a pixel, the high one first.
abbrev pub colors : List Token → List ℕ
colors ((true, high) ∷ (true, low) ∷ later) = (high * 2 ^ 8 + low) ∷ colors later
colors tokens = []

pub color_bytes :
    (color : ℕ)
    → color < 2 ^ 16
    → (color / 2 ^ 8 % 2 ^ 8) * 2 ^ 8 + bit_and color 0xff % 2 ^ 8 ≡ color
color_bytes color h = omega (arith, bit_and-byte color)

colors-send_times :
    (n color : ℕ) → color < 2 ^ 16 → colors (data_bytes (send_times n color)) ≡ replicate n color
unfolding send_times
colors-send_times zero color h = refl
colors-send_times (suc n) color h = rw (color_bytes color h, colors-send_times n color h)

pub send_times-IsByte : (n color : ℕ) → All IsByte (data_bytes (send_times n color))
unfolding send_times
send_times-IsByte zero color = tt
send_times-IsByte (suc n) color = (omega arith, (omega arith, send_times-IsByte n color))

-- What a connection that is ready makes of a list of data bytes: when the calls have returned, the
-- bytes have been sent behind all bytes before, and the calls can return.
abbrev pub Delivers : (l : Link) → l.State → List Token → Type 0
Delivers l s bytes =
    ((s' : l.State) → SendsAll l bytes s s' → l.sent s' ≡ l.sent s ++ bytes)
    × ((s' : l.State) × SendsAll l bytes s s')

IsByte-Delivers :
    (l : Link) (s : l.State) (bytes : List Token)
    → All IsByte bytes
    → l.IsReady s
    → Delivers l s bytes
IsByte-Delivers l s bytes small ready =
    (λ s' run. (SendsAll-sent l bytes s s' small ready run).1, SendsAll-total l bytes s small ready)

-- Over either form of the connection, filling `n` pixels with a color of 16 bits by
-- `st7735_send_color` can return, and when it has, the display has been sent, behind all bytes
-- before, data bytes that are the color `n` times.
pub send_times-colors :
    (l : Link) (s : l.State) (n color : ℕ)
    → l.IsReady s
    → color < 2 ^ 16
    → let bytes = data_bytes (send_times n color) in
      (colors bytes ≡ replicate n color) × Delivers l s bytes
send_times-colors l s n color ready h =
    let bytes = data_bytes (send_times n color) in
    (colors-send_times n color h, IsByte-Delivers l s bytes (send_times-IsByte n color) ready)

-- The values of a function at `i` and the numbers after it, `n` of them.
abbrev pub values : (ℕ → ℕ) → ℕ → ℕ → List ℕ
values f zero i = []
values f (suc n) i = f i ∷ values f n (i + 1)

colors-send_stream :
    (f : ℕ → ℕ) (n i : ℕ)
    → ((k : ℕ) → f k < 2 ^ 16)
    → colors (data_bytes (send_stream f n i)) ≡ values f n i
colors-send_stream f zero i small = refl
colors-send_stream f (suc n) i small =
    rw (color_bytes (f i) (small i), colors-send_stream f n (i + 1) small)

send_stream-IsByte : (f : ℕ → ℕ) (n i : ℕ) → All IsByte (data_bytes (send_stream f n i))
send_stream-IsByte f zero i = tt
send_stream-IsByte f (suc n) i = (omega arith, (omega arith, send_stream-IsByte f n (i + 1)))

pub color_code-small : (c : Color) → color_code c < 2 ^ 16
color_code-small black = omega arith
color_code-small blue = omega arith
color_code-small green = omega arith
color_code-small red = omega arith
color_code-small white = omega arith

pub glyph_pixel-small :
    (font : List ℕ) (fg bg : Color) (c k : ℕ) → glyph_pixel font fg bg c k < 2 ^ 16
glyph_pixel-small font fg bg c k =
    elim (Bool-cases (bit (get_or font (c * 12 + k / 8) 0) (k % 8) == 1)) [
      | inl e ↦ rw e (color_code-small fg)
      | inr e ↦ rw e (color_code-small bg)
    ]

-- Over either form of the connection, and with a font of 1,536 bytes and the cell within the `u8`
-- coordinates, `st7735_putc_unchecked` of a character of the table returns in both builds, and its
-- data bytes, which arrive behind all bytes before, are the colors of the character's 96 pixels in
-- reading order.
pub putc_unchecked-colors :
    (l : Link) (s : l.State) (b : Build) (font : List ℕ) (fg bg : Color) (x y c : ℕ)
    → l.IsReady s
    → length font ≡ 1536
    → x + 7 < 2 ^ 8
    → y + 11 < 2 ^ 8
    → c < 128
    → (actions : List Action) × (putc_unchecked b font fg bg x y c ≡ ok actions)
      × (colors (data_bytes actions) ≡ values (glyph_pixel font fg bg c) 96 0)
      × Delivers l s (data_bytes actions)
putc_unchecked-colors l s b font fg bg x y c ready size hx hy hc =
    let pixels = send_stream (glyph_pixel font fg bg c) 96 0 in
    let inside : ltb c 128 ≡ true = ground arith in
    (
      lcd (set_addr_window x y (x + 7) (y + 11)) ∷ pixels,
      putc_unchecked-glyph font fg bg b size x y c hx hy ∙ rw inside refl,
      colors-send_stream (glyph_pixel font fg bg c) 96 0 (glyph_pixel-small font fg bg c),
      IsByte-Delivers l s (data_bytes pixels) (send_stream-IsByte (glyph_pixel font fg bg c) 96 0)
          ready,
    )
