-- ===== src/Screen/Panel.antt =====
-- A display that keeps what `Driver` asks for.
use stm32f3_oscilloscope.Prelude.{ℕ, ◌<◌, ◌≡◌, refl, ◌&&◌, none, true, ltb, if◌then◌else◌, arith}
use stm32f3_oscilloscope.Prelude.Int.{pos}
use stm32f3_oscilloscope.Device.{
  LcdCall, init_r, set_rotation, fill_screen, draw_pixel, draw_fast_h_line, draw_fast_v_line,
  set_addr_window, send_data,
}
use stm32f3_oscilloscope.Screen.{Screen, put, Driver}

abbrev pub answer : LcdCall → Screen → Screen
answer (init_r kind) s = s
answer (set_rotation rotation) s = s
answer (fill_screen color) s = record s { frame = λ i j. color }
answer (draw_pixel (pos x) (pos y) color) s =
    if ltb x 160 && ltb y 128 then record s { frame = put x y color s.frame } else s
answer (draw_pixel x y color) s = s
answer (draw_fast_h_line x y w color) s = s
answer (draw_fast_v_line x y h color) s = s
answer (set_addr_window x0 y0 x1 y1) s = record {
  frame = s.frame;
  left = x0;
  top = y0;
  right = x1;
  bottom = y1;
  column = x0;
  row = y0;
  high = none;
}
answer (send_data byte) s = s

pub answer-draws :
    (x y color : ℕ) (s : Screen)
    → x < 160
    → y < 128
    → (answer (draw_pixel (pos x) (pos y) color) s).frame ≡ put x y color s.frame
answer-draws x y color s hx hy =
    let on : ltb x 160 ≡ true = ground arith in
    let on' : ltb y 128 ≡ true = ground arith in rw (on, on')

abbrev pub panel : Driver
panel = record {
  call = answer;
  draws = λ x y color s hx hy small. answer-draws x y color s hx hy;
  opens = λ x0 y0 x1 y1 s. refl;
  clears = λ color i j s small hi hj. refl;
}

-- A display that is black.
abbrev pub dark_screen : Screen
dark_screen = record {
  frame = λ i j. 0;
  left = 0;
  top = 0;
  right = 159;
  bottom = 127;
  column = 0;
  row = 0;
  high = none;
}
