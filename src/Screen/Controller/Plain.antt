-- ===== src/Screen/Controller/Plain.antt =====
-- A driver that sends the bytes that `Protocol` asks for.
use stm32f3_oscilloscope.Prelude.{
  ℕ, zero, suc, ◌+◌, ◌*◌, ◌/◌, ◌%◌, ◌^◌, ◌<◌, ◌≡◌, refl, ap, ◌∙◌, true, false, List, [], ◌∷◌, ◌++◌,
  All, ltb, ◌==◌, ◌&&◌, if◌then◌else◌, Bool-cases, inl, inr, arith,
}
use stm32f3_oscilloscope.Prelude.Int.{pos, negsuc}
use stm32f3_oscilloscope.Device.{
  LcdCall, init_r, set_rotation, fill_screen, draw_pixel, draw_fast_h_line, draw_fast_v_line,
  set_addr_window, send_data,
}
use stm32f3_oscilloscope.Lcd.{send_times, send_color}
use stm32f3_oscilloscope.Spi.{Token}
use stm32f3_oscilloscope.Spi.Link.{IsByte}
use stm32f3_oscilloscope.Spi.Pixels.{data_bytes, send_times-IsByte}
use stm32f3_oscilloscope.Screen.{Screen, put, show}
use stm32f3_oscilloscope.Screen.Drawing.{fill-shows}
use stm32f3_oscilloscope.Screen.Panel.{panel}
use stm32f3_oscilloscope.Screen.Controller.{pixels, other, Controller, feed, opened, Protocol}
use stm32f3_oscilloscope.Screen.Controller.Arrival.{feed-append, All-append}

abbrev window_tokens : ℕ → ℕ → ℕ → ℕ → List Token
window_tokens x0 y0 x1 y1 =
    (false, 0x2a)
    ∷ (true, 0)
    ∷ (true, x0 % 2 ^ 8)
    ∷ (true, 0)
    ∷ (true, x1 % 2 ^ 8)
    ∷ (false, 0x2b)
    ∷ (true, 0)
    ∷ (true, y0 % 2 ^ 8)
    ∷ (true, 0)
    ∷ (true, y1 % 2 ^ 8)
    ∷ (false, 0x2c)
    ∷ []

abbrev pixel_tokens : ℕ → ℕ → ℕ → List Token
pixel_tokens x y color =
    if ltb x 160 && ltb y 128
    then window_tokens x y (x + 1) (y + 1)
      ++ ((true, color / 2 ^ 8 % 2 ^ 8) ∷ (true, color % 2 ^ 8) ∷ [])
    else []

abbrev plain_tokens : LcdCall → List Token
plain_tokens (init_r kind) = (false, 0x01) ∷ (false, 0x11) ∷ (false, 0x29) ∷ []
plain_tokens (set_rotation rotation) = (false, 0x36) ∷ (true, 0x68) ∷ []
plain_tokens (fill_screen color) =
    window_tokens 0 0 159 127 ++ data_bytes (send_times (160 * 128) color)
plain_tokens (draw_pixel (pos x) (pos y) color) = pixel_tokens x y color
plain_tokens (set_addr_window x0 y0 x1 y1) = window_tokens x0 y0 x1 y1
plain_tokens c = []

window-IsByte : (x0 y0 x1 y1 : ℕ) → All IsByte (window_tokens x0 y0 x1 y1)
window-IsByte x0 y0 x1 y1 = omega arith

pub plain-IsByte : (c : LcdCall) → All IsByte (plain_tokens c)
plain-IsByte (init_r kind) = omega arith
plain-IsByte (set_rotation rotation) = omega arith
plain-IsByte (fill_screen color) =
    All-append (window_tokens 0 0 159 127) (data_bytes (send_times (160 * 128) color))
      (window-IsByte 0 0 159 127) (send_times-IsByte (160 * 128) color)
plain-IsByte (draw_pixel (pos x) (pos y) color) = elim (Bool-cases (ltb x 160 && ltb y 128)) [
  | inl e ↦ rw e (
      All-append (window_tokens x y (x + 1) (y + 1))
        ((true, color / 2 ^ 8 % 2 ^ 8) ∷ (true, color % 2 ^ 8) ∷ [])
        (window-IsByte x y (x + 1) (y + 1)) (omega arith))
  | inr e ↦ rw e tt
]
plain-IsByte (draw_pixel (pos x) (negsuc y) color) = tt
plain-IsByte (draw_pixel (negsuc x) y color) = tt
plain-IsByte (draw_fast_h_line x y n color) = tt
plain-IsByte (draw_fast_v_line x y n color) = tt
plain-IsByte (set_addr_window x0 y0 x1 y1) = window-IsByte x0 y0 x1 y1
plain-IsByte (send_data byte) = tt

-- Every call starts with a command, so that the mode before does not matter.
abbrev plain_effect : LcdCall → Screen → Screen
plain_effect c s = (feed (plain_tokens c) (record { mode = other; screen = s })).screen

pub plain-performs :
    (c : LcdCall) (k : Controller) → (feed (plain_tokens c) k).screen ≡ plain_effect c k.screen
plain-performs (init_r kind) k = refl
plain-performs (set_rotation rotation) k = refl
plain-performs (fill_screen color) k = refl
plain-performs (draw_pixel (pos x) (pos y) color) k = elim (Bool-cases (ltb x 160 && ltb y 128)) [
  | inl e ↦ rw (e, plain_effect) refl
  | inr e ↦ rw (e, plain_effect) refl
]
plain-performs (draw_pixel (pos x) (negsuc y) color) k = refl
plain-performs (draw_pixel (negsuc x) y color) k = refl
plain-performs (draw_fast_h_line x y n color) k = refl
plain-performs (draw_fast_v_line x y n color) k = refl
plain-performs (set_addr_window x0 y0 x1 y1) k = refl
plain-performs (send_data byte) k = refl

pub plain-opens :
    (x0 y0 x1 y1 : ℕ) (k : Controller)
    → x0 < 2 ^ 8
    → y0 < 2 ^ 8
    → x1 < 2 ^ 8
    → y1 < 2 ^ 8
    → feed (window_tokens x0 y0 x1 y1) k
      ≡ record { mode = pixels; screen = opened x0 y0 x1 y1 k.screen }
plain-opens x0 y0 x1 y1 k a b c e =
    let left : 0 + x0 % 2 ^ 8 ≡ x0 = omega arith in
    let top : 0 + y0 % 2 ^ 8 ≡ y0 = omega arith in
    let right : 0 + x1 % 2 ^ 8 ≡ x1 = omega arith in
    let bottom : 0 + y1 % 2 ^ 8 ≡ y1 = omega arith in rw (left, top, right, bottom) refl

pub plain-draws :
    (x y color : ℕ) (s : Screen)
    → x < 160
    → y < 128
    → color < 2 ^ 16
    → (plain_effect (draw_pixel (pos x) (pos y) color) s).frame ≡ put x y color s.frame
plain-draws x y color s hx hy small =
    let on : ltb x 160 && ltb y 128 ≡ true = ground arith in
    let wide : x == x + 1 ≡ false = ground arith in
    let whole : (color / 2 ^ 8 % 2 ^ 8) * 2 ^ 8 + color % 2 ^ 8 ≡ color = omega arith in
    let data_tokens : List Token = (true, color / 2 ^ 8 % 2 ^ 8) ∷ (true, color % 2 ^ 8) ∷ [] in
    rw (on, plain_effect)
      (ap (λ (k : Controller). k.screen.frame)
          (feed-append (window_tokens x y (x + 1) (y + 1)) data_tokens
            (record { mode = other; screen = s }))
        ∙ ap (λ (k : Controller). (feed data_tokens k).screen.frame)
            (plain-opens x y (x + 1) (y + 1) (record { mode = other; screen = s }) (omega arith)
              (omega arith) (omega arith) (omega arith))
        ∙ rw (wide, whole) refl)

-- Pixels to an open window are what `show` makes of them.
feed-pixels :
    (n color : ℕ) (s : Screen)
    → (feed (data_bytes (send_times n color)) (record { mode = pixels; screen = s })).screen
      ≡ show panel (send_times n color) s
unfolding send_times
feed-pixels zero color s = refl
feed-pixels (suc n) color s = feed-pixels n color (show panel (send_color color) s)

pub plain-clears :
    (color i j : ℕ) (s : Screen)
    → color < 2 ^ 16
    → i < 160
    → j < 128
    → (plain_effect (fill_screen color) s).frame i j ≡ color
plain-clears color i j s small hi hj =
    let k : Controller = record { mode = other; screen = s } in
    let bytes = data_bytes (send_times (160 * 128) color) in
    ap (λ (k : Controller). k.screen.frame i j) (feed-append (window_tokens 0 0 159 127) bytes k)
    ∙ ap (λ (k : Controller). (feed bytes k).screen.frame i j)
        (plain-opens 0 0 159 127 k (omega arith) (omega arith) (omega arith) (omega arith))
    ∙ ap (λ (s : Screen). s.frame i j) (feed-pixels (160 * 128) color (opened 0 0 159 127 s))
    ∙ fill-shows panel s 0 0 160 128 159 127 color small (omega arith) (omega arith) refl refl i j
    ∙ ground arith

abbrev pub plain : Protocol
plain = record {
  tokens = plain_tokens;
  effect = plain_effect;
  bytes = plain-IsByte;
  performs = plain-performs;
  opens = plain-opens;
  draws = plain-draws;
  clears = plain-clears;
}
