-- ===== src/Spi/Wire/Delivery.antt =====
-- The software SPI of st7735.rs as a connection to the display.
use stm32f3_oscilloscope.Prelude.{
  ◌^◌, ◌<◌, ◌≡◌, refl, sym, ap, ◌∙◌, Bool, true, false, List, [], ◌∷◌, ◌++◌, All, arith, subst,
}
use stm32f3_oscilloscope.Device.{Action, modify, write, await, delay_ms, lcd}
use stm32f3_oscilloscope.Spi.{Token, lcd_dc1, lcd_dc0}
use stm32f3_oscilloscope.Spi.Link.{Link, IsByte, SendsAll, SendsAll-sent}
use stm32f3_oscilloscope.Spi.Software.{st7735_send_cmd, st7735_send_data}
use stm32f3_oscilloscope.Spi.Wire.{Wire, follow, call}
use stm32f3_oscilloscope.Spi.Wire.Bits.{wire, last_bit, follow-send_byte}

-- Between two bytes, with the chip selected.
pub record IsIdle (w : Wire) : Type 0 where
  pub selected : w.cs ≡ false
  pub low : w.sck ≡ false
  pub no_bits : w.count ≡ 0
  pub no_value : w.value ≡ 0

IsIdle-eq : (w : Wire) → IsIdle w → w ≡ wire w.dc w.sda 0 0 w.received
IsIdle-eq w h = ground arith

follow-call :
    (t : Token) (dc sda : Bool) (received : List Token)
    → t.1 < 2 ^ 8
    → follow (call t) (wire dc sda 0 0 received)
      ≡ wire t.0 (last_bit 7 t.1) 0 0 (received ++ t ∷ [])
unfolding call st7735_send_cmd st7735_send_data lcd_dc1 lcd_dc0
follow-call (true, byte) dc sda received h = follow-send_byte byte true sda received h
follow-call (false, byte) dc sda received h = follow-send_byte byte false sda received h

wire-IsIdle : (dc sda : Bool) (received : List Token) → IsIdle (wire dc sda 0 0 received)
wire-IsIdle dc sda received = record {
  selected = refl;
  low = refl;
  no_bits = refl;
  no_value = refl;
}

pub call-delivers :
    (t : Token) (w w' : Wire)
    → t.1 < 2 ^ 8
    → IsIdle w
    → follow (call t) w ≡ w'
    → IsIdle w' × (w'.received ≡ w.received ++ t ∷ [])
call-delivers t w w' byte h run =
    let ends : wire t.0 (last_bit 7 t.1) 0 0 (w.received ++ t ∷ []) ≡ w' =
      sym (follow-call t w.dc w.sda w.received byte)
      ∙ ap (λ (v : Wire). follow (call t) v) (sym (IsIdle-eq w h))
      ∙ run in
    subst (λ (v : Wire). IsIdle v × (v.received ≡ w.received ++ t ∷ [])) ends
      (wire-IsIdle t.0 (last_bit 7 t.1) (w.received ++ t ∷ []), refl)

abbrev pub wire_link : Link
wire_link = record {
  State = Wire;
  IsReady = IsIdle;
  Sends = λ t w w'. follow (call t) w ≡ w';
  sent = λ w. w.received;
  delivers = call-delivers;
  proceeds = λ t w byte h. (follow (call t) w, refl);
}

-- The accesses of calls in a row.
abbrev pub calls : List Token → List Action
calls [] = []
calls (t ∷ ts) = call t ++ calls ts

follow-append : (xs ys : List Action) (w : Wire) → follow (xs ++ ys) w ≡ follow ys (follow xs w)
follow-append [] ys w = refl
follow-append (modify fs ∷ xs) ys w = follow-append xs ys (follow (modify fs ∷ []) w)
follow-append (write fs ∷ xs) ys w = follow-append xs ys (follow (write fs ∷ []) w)
follow-append (await f v ∷ xs) ys w = follow-append xs ys w
follow-append (delay_ms n ∷ xs) ys w = follow-append xs ys w
follow-append (lcd c ∷ xs) ys w = follow-append xs ys w

calls-SendsAll : (ts : List Token) (w : Wire) → SendsAll wire_link ts w (follow (calls ts) w)
calls-SendsAll [] w = refl
calls-SendsAll (t ∷ ts) w =
    rw (follow-append (call t) (calls ts) w)
      (follow (call t) w, refl, calls-SendsAll ts (follow (call t) w))

-- With the software SPI, from between two bytes and with the chip selected, the bits that calls of
-- `st7735_send_cmd` and `st7735_send_data` in a row put on the pins are read by the display as just
-- the bytes of the calls, in their order and each with the level of A0/DC that belongs to it.
pub wire_link-sent :
    (ts : List Token) (w : Wire)
    → All IsByte ts
    → IsIdle w
    → IsIdle (follow (calls ts) w) × ((follow (calls ts) w).received ≡ w.received ++ ts)
wire_link-sent ts w bytes h =
    SendsAll-sent wire_link ts w (follow (calls ts) w) bytes h (calls-SendsAll ts w)
