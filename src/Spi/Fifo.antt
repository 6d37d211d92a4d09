-- ===== src/Spi/Fifo.antt =====
-- SPI2 with its transmit buffer, as the reference manual describes it, and the hardware SPI of
-- st7735.rs in it: the buffer shifts bytes out at any time, also between the program's accesses.
pub mod Careful
pub mod Delivery
use stm32f3_oscilloscope.Prelude.{
  ℕ, ◌+◌, ◌≡◌, Bool, true, false, List, [], ◌∷◌, ◌++◌, map, length, leb, ltb, ◌==◌, if◌then◌else◌,
}
use stm32f3_oscilloscope.Device.{
  Field, Action, modify, write, await, delay_ms, lcd, spi2_sr_txe, spi2_sr_bsy, spi2_dr_8bit,
  gpiob_bsrr_bs12, gpiob_brr_br12,
}
use stm32f3_oscilloscope.Spi.{Token}
use stm32f3_oscilloscope.Spi.Hardware.{st7735_send_cmd, st7735_send_data}

-- The level of A0/DC, the bytes not yet shifted out whole, the first of them in the shift register,
-- and what the display has received: it reads A0/DC at the last bit of a byte.
pub record Fifo : Type 0 where
  pub dc : Bool
  pub queue : List ℕ
  pub received : List Token

-- What an access is for the connection.
pub data Op : Type 0 where
  set_dc : Bool → Op
  put : ℕ → Op
  await_room await_idle nothing : Op

abbrev op_of_field : Field → ℕ → Op
op_of_field gpiob_bsrr_bs12 v = if v == 1 then set_dc true else nothing
op_of_field gpiob_brr_br12 v = if v == 1 then set_dc false else nothing
op_of_field spi2_dr_8bit v = put v
op_of_field f v = nothing

abbrev op_of_wait : Field → ℕ → Op
op_of_wait spi2_sr_txe v = if v == 1 then await_room else nothing
op_of_wait spi2_sr_bsy v = if v == 0 then await_idle else nothing
op_of_wait f v = nothing

abbrev ops_of_fields : List (Field × ℕ) → List Op
ops_of_fields [] = []
ops_of_fields ((f, v) ∷ fs) = op_of_field f v ∷ ops_of_fields fs

abbrev pub ops_of : List Action → List Op
ops_of [] = []
ops_of (modify fs ∷ later) = ops_of_fields fs ++ ops_of later
ops_of (write fs ∷ later) = ops_of_fields fs ++ ops_of later
ops_of (await f v ∷ later) = op_of_wait f v ∷ ops_of later
ops_of (delay_ms n ∷ later) = ops_of later
ops_of (lcd c ∷ later) = ops_of later

-- `txe` reads 1 while at most two of the buffer's four bytes are taken, besides the shift register,
-- and `bsy` reads 0 while there is nothing to shift.
abbrev pub allows : Op → List ℕ → Bool
allows await_room queue = leb (length queue) 3
allows await_idle queue = length queue == 0
allows op queue = true

-- A byte written to a full buffer is lost.
abbrev pub act : Op → Fifo → Fifo
act (set_dc level) f = record f { dc = level }
act (put byte) f = if ltb (length f.queue) 5 then record f { queue = f.queue ++ byte ∷ [] } else f
act op f = f

-- The accesses of the program in their order, with shifts between them at any time.
pub data Exec : List Op → Fifo → Fifo → Type 0 where
  done : {f : Fifo} → Exec [] f f
  shift :
      {ops : List Op} {f g : Fifo} (byte : ℕ) (queue : List ℕ)
      → f.queue ≡ byte ∷ queue
      → Exec ops (record f { queue = queue; received = f.received ++ (f.dc, byte) ∷ [] }) g
      → Exec ops f g
  step :
      {op : Op} {ops : List Op} {f g : Fifo}
      → allows op f.queue ≡ true
      → Exec ops (act op f) g
      → Exec (op ∷ ops) f g

-- The bytes sent so far: those received, and those in the buffer with the present level.
abbrev pub sent : Fifo → List Token
sent f = f.received ++ map (λ (byte : ℕ). (f.dc, byte)) f.queue

-- What the bit of A0/DC in the output register reads at a level.
abbrev pub odr12 : Bool → ℕ
odr12 true = 1
odr12 false = 0

-- The call for a byte, from what `lcd_dc` reads at its start.
pub call : Token → ℕ → List Action
unfolding st7735_send_cmd st7735_send_data
call (true, byte) odr = st7735_send_data odr byte
call (false, byte) odr = st7735_send_cmd odr byte
