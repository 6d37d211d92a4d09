-- ===== src/Screen/Controller/Arrival.antt =====
-- What the display shows once the bytes of a drawing have arrived, over either connection.
use stm32f3_oscilloscope.Prelude.{
  ◌≡◌, refl, ap, ◌∙◌, Bool, true, false, List, [], ◌∷◌, ◌++◌, All, arith,
}
use stm32f3_oscilloscope.Device.{
  Action, modify, write, await, delay_ms, lcd, LcdCall, init_r, set_rotation, fill_screen,
  draw_pixel, draw_fast_h_line, draw_fast_v_line, set_addr_window, send_data,
}
use stm32f3_oscilloscope.Spi.{Token}
use stm32f3_oscilloscope.Spi.Link.{Link, IsByte, SendsAll, SendsAll-sent, SendsAll-total}
use stm32f3_oscilloscope.Screen.{Screen, show, take_byte}
use stm32f3_oscilloscope.Screen.Controller.{
  pixels, Controller, take, take_data, feed, opened, Protocol, driver_of, sent_by,
}
use stm32f3_oscilloscope.Screen.Controller.Order.{IsOrderly}

pub feed-append : (xs ys : List Token) (k : Controller) → feed (xs ++ ys) k ≡ feed ys (feed xs k)
feed-append [] ys k = refl
feed-append (t ∷ xs) ys k = feed-append xs ys (take t k)

pub All-append : (xs ys : List Token) → All IsByte xs → All IsByte ys → All IsByte (xs ++ ys)
All-append [] ys hx hy = hy
All-append (x ∷ xs) ys hx hy = (hx.0, All-append xs ys hx.1 hy)

-- The controller once all bytes sent so far have arrived.
abbrev pub arrived : (l : Link) → Controller → l.State → Controller
arrived l begin s = feed (l.sent s) begin

module _ (p : Protocol) where
  -- A call of the C driver other than the opening of a window, and what follows.
  feed-call :
      (c : LcdCall) (later : List Action) (k : Controller)
      → (feed (sent_by p later) (feed (p.tokens c) k)).screen
        ≡ show (driver_of p) later (feed (p.tokens c) k).screen
      → (feed (p.tokens c ++ sent_by p later) k).screen
        ≡ show (driver_of p) later (p.effect c k.screen)
  feed-call c later k e =
      ap (λ (k : Controller). k.screen) (feed-append (p.tokens c) (sent_by p later) k)
      ∙ e
      ∙ ap (λ (s : Screen). show (driver_of p) later s) (p.performs c k)

  -- If pixels are sent to an open window only, the controller takes the bytes for what the drawing
  -- means by them.
  pub feed-shows :
      (actions : List Action) (w : Bool) (k : Controller)
      → (w ≡ true → k.mode ≡ pixels)
      → IsOrderly w actions
      → (feed (sent_by p actions) k).screen ≡ show (driver_of p) actions k.screen
  feed-shows [] w k mode h = refl
  feed-shows (lcd (send_data byte) ∷ later) w k mode (now, small, h) =
      ap (λ mode. (feed (sent_by p later) (take_data mode byte k.screen)).screen) (mode now)
      ∙ feed-shows later w
          (record { mode = pixels; screen = take_byte k.screen.high byte k.screen }) (λ e. refl) h
  feed-shows (lcd (set_addr_window x0 y0 x1 y1) ∷ later) w k mode (a, b, c, d, h) =
      let next : Controller = record { mode = pixels; screen = opened x0 y0 x1 y1 k.screen } in
      ap (λ (k : Controller). k.screen)
        (feed-append (p.tokens (set_addr_window x0 y0 x1 y1)) (sent_by p later) k)
      ∙ ap (λ (k : Controller). (feed (sent_by p later) k).screen) (p.opens x0 y0 x1 y1 k a b c d)
      ∙ feed-shows later true next (λ e. refl) h
  feed-shows (lcd (init_r kind) ∷ later) w k mode h =
      feed-call (init_r kind) later k (
        feed-shows later false (feed (p.tokens (init_r kind)) k) (λ e. absurd (ground (arith, e)))
          h)
  feed-shows (lcd (set_rotation rotation) ∷ later) w k mode h =
      feed-call (set_rotation rotation) later k (
        feed-shows later false (feed (p.tokens (set_rotation rotation)) k)
          (λ e. absurd (ground (arith, e))) h)
  feed-shows (lcd (fill_screen color) ∷ later) w k mode h = feed-call (fill_screen color) later k (
      feed-shows later false (feed (p.tokens (fill_screen color)) k)
        (λ e. absurd (ground (arith, e))) h)
  feed-shows (lcd (draw_pixel x y color) ∷ later) w k mode h =
      feed-call (draw_pixel x y color) later k (
        feed-shows later false (feed (p.tokens (draw_pixel x y color)) k)
          (λ e. absurd (ground (arith, e))) h)
  feed-shows (lcd (draw_fast_h_line x y n color) ∷ later) w k mode h =
      feed-call (draw_fast_h_line x y n color) later k (
        feed-shows later false (feed (p.tokens (draw_fast_h_line x y n color)) k)
          (λ e. absurd (ground (arith, e))) h)
  feed-shows (lcd (draw_fast_v_line x y n color) ∷ later) w k mode h =
      feed-call (draw_fast_v_line x y n color) later k (
        feed-shows later false (feed (p.tokens (draw_fast_v_line x y n color)) k)
          (λ e. absurd (ground (arith, e))) h)
  feed-shows (modify fs ∷ later) w k mode h = feed-shows later w k mode h
  feed-shows (write fs ∷ later) w k mode h = feed-shows later w k mode h
  feed-shows (await f v ∷ later) w k mode h = feed-shows later w k mode h
  feed-shows (delay_ms n ∷ later) w k mode h = feed-shows later w k mode h

  sent_by-IsByte :
      (actions : List Action) (w : Bool) → IsOrderly w actions → All IsByte (sent_by p actions)
  sent_by-IsByte [] w h = tt
  sent_by-IsByte (lcd (send_data byte) ∷ later) w (now, small, h) =
      (small, sent_by-IsByte later w h)
  sent_by-IsByte (lcd (set_addr_window x0 y0 x1 y1) ∷ later) w (a, b, c, d, h) =
      All-append (p.tokens (set_addr_window x0 y0 x1 y1)) (sent_by p later)
        (p.bytes (set_addr_window x0 y0 x1 y1)) (sent_by-IsByte later true h)
  sent_by-IsByte (lcd (init_r kind) ∷ later) w h =
      All-append (p.tokens (init_r kind)) (sent_by p later) (p.bytes (init_r kind))
        (sent_by-IsByte later false h)
  sent_by-IsByte (lcd (set_rotation rotation) ∷ later) w h =
      All-append (p.tokens (set_rotation rotation)) (sent_by p later)
        (p.bytes (set_rotation rotation)) (sent_by-IsByte later false h)
  sent_by-IsByte (lcd (fill_screen color) ∷ later) w h =
      All-append (p.tokens (fill_screen color)) (sent_by p later) (p.bytes (fill_screen color))
        (sent_by-IsByte later false h)
  sent_by-IsByte (lcd (draw_pixel x y color) ∷ later) w h =
      All-append (p.tokens (draw_pixel x y color)) (sent_by p later)
        (p.bytes (draw_pixel x y color)) (sent_by-IsByte later false h)
  sent_by-IsByte (lcd (draw_fast_h_line x y n color) ∷ later) w h =
      All-append (p.tokens (draw_fast_h_line x y n color)) (sent_by p later)
        (p.bytes (draw_fast_h_line x y n color)) (sent_by-IsByte later false h)
  sent_by-IsByte (lcd (draw_fast_v_line x y n color) ∷ later) w h =
      All-append (p.tokens (draw_fast_v_line x y n color)) (sent_by p later)
        (p.bytes (draw_fast_v_line x y n color)) (sent_by-IsByte later false h)
  sent_by-IsByte (modify fs ∷ later) w h = sent_by-IsByte later w h
  sent_by-IsByte (write fs ∷ later) w h = sent_by-IsByte later w h
  sent_by-IsByte (await f v ∷ later) w h = sent_by-IsByte later w h
  sent_by-IsByte (delay_ms n ∷ later) w h = sent_by-IsByte later w h

  module _ (l : Link) (begin : Controller) where
    pub SendsAll-shows :
        (actions : List Action) (s s' : l.State)
        → IsOrderly false actions
        → l.IsReady s
        → SendsAll l (sent_by p actions) s s'
        → l.IsReady s'
          × ((arrived l begin s').screen ≡ show (driver_of p) actions (arrived l begin s).screen)
    SendsAll-shows actions s s' h ready run =
        let (ready', all) =
          SendsAll-sent l (sent_by p actions) s s' (sent_by-IsByte actions false h) ready run in
        (
          ready',
          ap (λ tokens. (feed tokens begin).screen) all
              ∙ ap (λ (k : Controller). k.screen) (feed-append (l.sent s) (sent_by p actions) begin)
              ∙ feed-shows actions false (arrived l begin s) (λ e. absurd (ground (arith, e))) h,
        )

    pub SendsAll-can :
        (actions : List Action) (s : l.State)
        → IsOrderly false actions
        → l.IsReady s
        → (s' : l.State) × SendsAll l (sent_by p actions) s s'
    SendsAll-can actions s h ready =
        SendsAll-total l (sent_by p actions) s (sent_by-IsByte actions false h) ready
