-- ===== src/Screen/Controller.antt =====
-- The commands of the display's controller, as its data sheet describes them, and the bytes that a
-- sequence of the program's actions sends to it, with those of the C driver as a parameter.
pub mod Order
pub mod Arrival
pub mod Drawing
pub mod Plain
use stm32f3_oscilloscope.Prelude.{
  ℕ, ◌+◌, ◌*◌, ◌^◌, ◌<◌, ◌≡◌, Bool, true, false, none, List, [], ◌∷◌, ◌++◌, All, ◌==◌,
  if◌then◌else◌, refl,
}
use stm32f3_oscilloscope.Prelude.Int.{pos}
use stm32f3_oscilloscope.Device.{
  Action, modify, write, await, delay_ms, lcd, LcdCall, init_r, set_rotation, fill_screen,
  draw_pixel, set_addr_window, send_data,
}
use stm32f3_oscilloscope.Spi.{Token}
use stm32f3_oscilloscope.Spi.Link.{IsByte}
use stm32f3_oscilloscope.Screen.{Screen, put, take_byte, Driver}

-- What the next data byte is for: the four of a command that sets the window's columns or rows, a
-- pixel, or something that is not modelled. The bytes that have come are in a list.
pub data Mode : Type 0 where
  columns rows : List ℕ → Mode
  pixels other : Mode

pub record Controller : Type 0 where
  pub mode : Mode
  pub screen : Screen

abbrev pub opened : ℕ → ℕ → ℕ → ℕ → Screen → Screen
opened x0 y0 x1 y1 s = record {
  frame = s.frame;
  left = x0;
  top = y0;
  right = x1;
  bottom = y1;
  column = x0;
  row = y0;
  high = none;
}

-- CASET is 0x2a, RASET 0x2b and RAMWR 0x2c.
abbrev pub take_command : ℕ → Screen → Controller
take_command code s =
    if code == 0x2a
    then record { mode = columns []; screen = s }
    else if code == 0x2b
    then record { mode = rows []; screen = s }
    else if code == 0x2c
    then record { mode = pixels; screen = opened s.left s.top s.right s.bottom s }
    else record { mode = other; screen = s }

abbrev pub take_data : Mode → ℕ → Screen → Controller
take_data (columns (a ∷ b ∷ c ∷ [])) byte s = record {
  mode = other;
  screen = record s { left = a * 2 ^ 8 + b; right = c * 2 ^ 8 + byte };
}
take_data (columns args) byte s = record { mode = columns (args ++ byte ∷ []); screen = s }
take_data (rows (a ∷ b ∷ c ∷ [])) byte s = record {
  mode = other;
  screen = record s { top = a * 2 ^ 8 + b; bottom = c * 2 ^ 8 + byte };
}
take_data (rows args) byte s = record { mode = rows (args ++ byte ∷ []); screen = s }
take_data pixels byte s = record { mode = pixels; screen = take_byte s.high byte s }
take_data other byte s = record { mode = other; screen = s }

abbrev pub take : Token → Controller → Controller
take (true, byte) k = take_data k.mode byte k.screen
take (false, code) k = take_command code k.screen

-- The controller after a sequence of bytes.
abbrev pub feed : List Token → Controller → Controller
feed [] k = k
feed (t ∷ ts) k = feed ts (take t k)

-- The C driver by the bytes that it sends, in the landscape rotation: what a call does to the
-- display does not depend on the command before, a window is open for pixels behind its call, a
-- pixel on the panel is drawn, and the whole panel is filled.
pub record Protocol : Type 0 where
  pub tokens : LcdCall → List Token
  pub effect : LcdCall → Screen → Screen
  pub bytes : (c : LcdCall) → All IsByte (tokens c)
  pub performs : (c : LcdCall) (k : Controller) → (feed (tokens c) k).screen ≡ effect c k.screen
  pub opens :
      (x0 y0 x1 y1 : ℕ) (k : Controller)
      → x0 < 2 ^ 8
      → y0 < 2 ^ 8
      → x1 < 2 ^ 8
      → y1 < 2 ^ 8
      → feed (tokens (set_addr_window x0 y0 x1 y1)) k
        ≡ record { mode = pixels; screen = opened x0 y0 x1 y1 k.screen }
  pub draws :
      (x y color : ℕ) (s : Screen)
      → x < 160
      → y < 128
      → color < 2 ^ 16
      → (effect (draw_pixel (pos x) (pos y) color) s).frame ≡ put x y color s.frame
  pub clears :
      (color i j : ℕ) (s : Screen)
      → color < 2 ^ 16
      → i < 160
      → j < 128
      → (effect (fill_screen color) s).frame i j ≡ color

module _ (p : Protocol) where
  abbrev pub call_by : LcdCall → Screen → Screen
  call_by (set_addr_window x0 y0 x1 y1) s = opened x0 y0 x1 y1 s
  call_by c s = p.effect c s

  -- The driver that a protocol makes.
  abbrev pub driver_of : Driver
  driver_of = record {
    call = call_by;
    draws = p.draws;
    opens = λ x0 y0 x1 y1 s. refl;
    clears = p.clears;
  }

  -- The bytes that a sequence of actions sends.
  abbrev pub sent_by : List Action → List Token
  sent_by [] = []
  sent_by (lcd (send_data byte) ∷ later) = (true, byte) ∷ sent_by later
  sent_by (lcd c ∷ later) = p.tokens c ++ sent_by later
  sent_by (a ∷ later) = sent_by later
