-- ===== src/Device.antt =====
-- What the program does to the hardware: a sequence of register accesses, waits and calls of the
-- display driver, and the register file that they leave.
-- The register access of the crate `stm32f30x` is taken at the level of named fields.
mod Fields
mod Ids
mod Owner
mod Clocks
pub mod Safety
pub mod Reset
pub use Fields.*
pub use Ids.*
pub use Owner.*
pub use Clocks.*
use stm32f3_oscilloscope.Prelude.{ℕ, List, [], ◌∷◌, ◌==◌, if◌then◌else◌}
use stm32f3_oscilloscope.Prelude.Int.{ℤ}

-- The calls that leave the Rust code for the C driver of the display, and the bytes sent to it.
pub data LcdCall : Type 0 where
  init_r : ℕ → LcdCall
  set_rotation : ℕ → LcdCall
  fill_screen : ℕ → LcdCall
  draw_pixel : ℤ → ℤ → ℕ → LcdCall
  draw_fast_h_line : ℤ → ℤ → ℤ → ℕ → LcdCall
  draw_fast_v_line : ℤ → ℤ → ℤ → ℕ → LcdCall
  set_addr_window : ℕ → ℕ → ℕ → ℕ → LcdCall
  send_data : ℕ → LcdCall

-- `modify` reads a register and writes it back with new values in the named fields, `write` writes
-- it with the named fields and the rest at their reset values, `await` is a loop that reads a
-- field until it has the value, and `delay_ms` is a call of the function of that name.
pub data Action : Type 0 where
  modify : List (Field × ℕ) → Action
  write : List (Field × ℕ) → Action
  await : Field → ℕ → Action
  delay_ms : ℕ → Action
  lcd : LcdCall → Action

abbrev pub Registers : Type 0
Registers = Field → ℕ

abbrev pub store : Field → ℕ → Registers → Registers
store f v r g = if field_id f == field_id g then v else r g

-- What a field holds after a write of `v` over `old`. The overrun flag is cleared by writing 1.
abbrev pub written : Field → ℕ → ℕ → ℕ
written adc1_isr_ovr v old = if v == 1 then 0 else old
written f v old = v

abbrev pub store_all : List (Field × ℕ) → Registers → Registers
store_all [] r = r
store_all ((f, v) ∷ fs) r = store_all fs (store f (written f v (r f)) r)

-- The configuration after an action. A wait is left when the field has been read with its value.
abbrev pub apply : Action → Registers → Registers
apply (modify fs) r = store_all fs r
apply (write fs) r = store_all fs r
apply (await f v) r = store f v r
apply (delay_ms n) r = r
apply (lcd c) r = r

abbrev pub run : List Action → Registers → Registers
run [] r = r
run (a ∷ later) r = run later (apply a r)

-- Where the crate places the peripherals' data registers, and the linker the tables and the buffer.
pub record Addresses : Type 0 where
  pub dac_dhr12r2 : ℕ
  pub dac_dhr8r1 : ℕ
  pub adc1_dr : ℕ
  pub sine_12bit : ℕ
  pub ramp_8bit : ℕ
  pub capture_channel_1 : ℕ
