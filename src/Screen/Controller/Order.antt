-- ===== src/Screen/Controller/Order.antt =====
-- The order that the controller wants: a window is opened before the pixels of it are sent.
use stm32f3_oscilloscope.Prelude.{◌^◌, ◌<◌, ◌≡◌, Bool, true, false, List, [], ◌∷◌, ◌++◌, arith}
use stm32f3_oscilloscope.Device.{
  Action, modify, write, await, delay_ms, lcd, init_r, set_rotation, fill_screen, draw_pixel,
  draw_fast_h_line, draw_fast_v_line, set_addr_window, send_data,
}

-- `open` is whether a window is open for pixels. All coordinates of a window and all data are bytes.
abbrev pub IsOrderly : Bool → List Action → Type 0
IsOrderly open_now [] = Unit
IsOrderly open_now (lcd (send_data byte) ∷ later) =
    (open_now ≡ true) × (byte < 2 ^ 8) × IsOrderly open_now later
IsOrderly open_now (lcd (set_addr_window x0 y0 x1 y1) ∷ later) =
    (x0 < 2 ^ 8) × (y0 < 2 ^ 8) × (x1 < 2 ^ 8) × (y1 < 2 ^ 8) × IsOrderly true later
IsOrderly open_now (lcd c ∷ later) = IsOrderly false later
IsOrderly open_now (a ∷ later) = IsOrderly open_now later

-- What needs no open window does not mind one.
pub IsOrderly-open : (w : Bool) (xs : List Action) → IsOrderly false xs → IsOrderly w xs
IsOrderly-open w [] h = h
IsOrderly-open w (lcd (send_data byte) ∷ later) h = absurd (ground (arith, h.0))
IsOrderly-open w (lcd (set_addr_window x0 y0 x1 y1) ∷ later) h = h
IsOrderly-open w (lcd (init_r kind) ∷ later) h = h
IsOrderly-open w (lcd (set_rotation rotation) ∷ later) h = h
IsOrderly-open w (lcd (fill_screen color) ∷ later) h = h
IsOrderly-open w (lcd (draw_pixel x y color) ∷ later) h = h
IsOrderly-open w (lcd (draw_fast_h_line x y n color) ∷ later) h = h
IsOrderly-open w (lcd (draw_fast_v_line x y n color) ∷ later) h = h
IsOrderly-open w (modify fs ∷ later) h = IsOrderly-open w later h
IsOrderly-open w (write fs ∷ later) h = IsOrderly-open w later h
IsOrderly-open w (await f v ∷ later) h = IsOrderly-open w later h
IsOrderly-open w (delay_ms n ∷ later) h = IsOrderly-open w later h

pub IsOrderly-append :
    (w : Bool) (xs ys : List Action) → IsOrderly w xs → IsOrderly false ys → IsOrderly w (xs ++ ys)
IsOrderly-append w [] ys hx hy = IsOrderly-open w ys hy
IsOrderly-append w (lcd (send_data byte) ∷ xs) ys (now, small, hx) hy =
    (now, small, IsOrderly-append w xs ys hx hy)
IsOrderly-append w (lcd (set_addr_window x0 y0 x1 y1) ∷ xs) ys (a, b, c, d, hx) hy =
    (a, b, c, d, IsOrderly-append true xs ys hx hy)
IsOrderly-append w (lcd (init_r kind) ∷ xs) ys hx hy = IsOrderly-append false xs ys hx hy
IsOrderly-append w (lcd (set_rotation rotation) ∷ xs) ys hx hy = IsOrderly-append false xs ys hx hy
IsOrderly-append w (lcd (fill_screen color) ∷ xs) ys hx hy = IsOrderly-append false xs ys hx hy
IsOrderly-append w (lcd (draw_pixel x y color) ∷ xs) ys hx hy = IsOrderly-append false xs ys hx hy
IsOrderly-append w (lcd (draw_fast_h_line x y n color) ∷ xs) ys hx hy =
    IsOrderly-append false xs ys hx hy
IsOrderly-append w (lcd (draw_fast_v_line x y n color) ∷ xs) ys hx hy =
    IsOrderly-append false xs ys hx hy
IsOrderly-append w (modify fs ∷ xs) ys hx hy = IsOrderly-append w xs ys hx hy
IsOrderly-append w (write fs ∷ xs) ys hx hy = IsOrderly-append w xs ys hx hy
IsOrderly-append w (await f v ∷ xs) ys hx hy = IsOrderly-append w xs ys hx hy
IsOrderly-append w (delay_ms n ∷ xs) ys hx hy = IsOrderly-append w xs ys hx hy
