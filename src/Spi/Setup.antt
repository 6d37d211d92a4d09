-- ===== src/Spi/Setup.antt =====
-- The two forms of `st7735_setup` of st7735.rs, and the rules of the hardware.
use stm32f3_oscilloscope.Prelude.{ℕ, ◌+◌, ◌/◌, ◌^◌, ◌≡◌, refl, ap, true, Option, none, some}
use stm32f3_oscilloscope.Device
use stm32f3_oscilloscope.Device.{Field, Registers, run}
use stm32f3_oscilloscope.Device.Safety.{clocked, guarded}
use stm32f3_oscilloscope.Sysclk.Rules.{pclk1_hz}
use stm32f3_oscilloscope.Device.Reset.{run_reset}
use stm32f3_oscilloscope.Spi.Hardware
use stm32f3_oscilloscope.Spi.Software

-- The bits of SPI2 that are to be written before it is enabled, and its enable bit.
abbrev pub spi_enable : Field → Option Field
spi_enable Device.spi2_cr1_bidimode = some Device.spi2_cr1_spe
spi_enable Device.spi2_cr1_crcen = some Device.spi2_cr1_spe
spi_enable Device.spi2_cr1_crcl = some Device.spi2_cr1_spe
spi_enable Device.spi2_cr1_ssm = some Device.spi2_cr1_spe
spi_enable Device.spi2_cr1_lsbfirst = some Device.spi2_cr1_spe
spi_enable Device.spi2_cr1_br = some Device.spi2_cr1_spe
spi_enable Device.spi2_cr1_mstr = some Device.spi2_cr1_spe
spi_enable Device.spi2_cr1_cpol = some Device.spi2_cr1_spe
spi_enable Device.spi2_cr1_cpha = some Device.spi2_cr1_spe
spi_enable Device.spi2_cr2_ds = some Device.spi2_cr1_spe
spi_enable Device.spi2_i2scfgr_i2smod = some Device.spi2_cr1_spe
spi_enable f = none

-- The pins that the program drives are outputs, and all five are push-pull.
pub record DrivesPins (r : Registers) : Type 0 where
  pub select : (r Device.gpiob_moder_moder10 ≡ 1) × (r Device.gpiob_otyper_ot10 ≡ 0)
  pub level : (r Device.gpiob_moder_moder12 ≡ 1) × (r Device.gpiob_otyper_ot12 ≡ 0)
  pub reset : (r Device.gpiob_moder_moder14 ≡ 1) × (r Device.gpiob_otyper_ot14 ≡ 0)
  pub clock_and_bits : (r Device.gpiob_otyper_ot13 ≡ 0) × (r Device.gpiob_otyper_ot15 ≡ 0)

-- SPI2 is out of its reset, has the clock and the data pin, and sends bytes as a master, the highest
-- bit first, with the clock low between them, one line for both directions that is set to send, and
-- no checksum.
pub record IsSending (r : Registers) : Type 0 where
  pub released : r Device.rcc_apb1rstr_spi2rst ≡ 0
  pub pins : (r Device.gpiob_moder_moder13 ≡ 2) × (r Device.gpiob_moder_moder15 ≡ 2)
  pub function : (r Device.gpiob_afrh_afrh13 ≡ 5) × (r Device.gpiob_afrh_afrh15 ≡ 5)
  pub enabled : (r Device.spi2_cr1_spe ≡ 1) × (r Device.spi2_i2scfgr_i2smod ≡ 0)
  pub master :
      (r Device.spi2_cr1_mstr ≡ 1) × (r Device.spi2_cr1_ssm ≡ 1) × (r Device.spi2_cr1_ssi ≡ 1)
  pub one_line :
      (r Device.spi2_cr1_bidimode ≡ 1)
      × (r Device.spi2_cr1_bidioe ≡ 1)
      × (r Device.spi2_cr1_rxonly ≡ 0)
  pub mode : (r Device.spi2_cr1_cpol ≡ 0) × (r Device.spi2_cr1_cpha ≡ 0)
  pub order : r Device.spi2_cr1_lsbfirst ≡ 0
  pub bytes : r Device.spi2_cr2_ds + 1 ≡ 8
  pub no_crc : r Device.spi2_cr1_crcen ≡ 0

-- The clock of the connection, from that of APB1.
abbrev pub sck_hz : Registers → ℕ
sck_hz r = pclk1_hz r / 2 ^ (r Device.spi2_cr1_br + 1)

-- The setup of the hardware SPI: with SPI2 disabled before, and with APB1 at 36 MHz, every access
-- finds its peripheral's clock on, nothing that needs SPI2 disabled is written while it is enabled,
-- and SPI2 is left sending at 4.5 MHz, out of its reset and with a configuration that no reset came
-- after, with the other three pins as outputs.
pub hardware_setup-IsSending :
    (r : Registers)
    → r Device.spi2_cr1_spe ≡ 0
    → pclk1_hz r ≡ 36_000_000
    → let r' = run_reset Hardware.st7735_setup r in
      (clocked Hardware.st7735_setup r ≡ true)
      × (guarded spi_enable Hardware.st7735_setup r ≡ true)
      × IsSending r'
      × DrivesPins r'
      × (sck_hz r' ≡ 4_500_000)
unfolding Hardware.st7735_setup
hardware_setup-IsSending r off clock = (
  refl,
  rw off,
  record {
    released = refl;
    pins = (refl, refl);
    function = (refl, refl);
    enabled = (refl, refl);
    master = (refl, refl, refl);
    one_line = (refl, refl, refl);
    mode = (refl, refl);
    order = refl;
    bytes = refl;
    no_crc = refl;
  },
  record {
    select = (refl, refl);
    level = (refl, refl);
    reset = (refl, refl);
    clock_and_bits = (refl, refl);
  },
  ap (λ (f : ℕ). f / 2 ^ 3) clock,
)

-- The setup of the software SPI: every access finds its peripheral's clock on, and all five pins
-- are left as push-pull outputs.
pub software_setup-DrivesPins :
    (r : Registers)
    → let r' = run Software.st7735_setup r in
      (clocked Software.st7735_setup r ≡ true)
      × DrivesPins r'
      × (r' Device.gpiob_moder_moder13 ≡ 1)
      × (r' Device.gpiob_moder_moder15 ≡ 1)
unfolding Software.st7735_setup
software_setup-DrivesPins r = (
  refl,
  record {
    select = (refl, refl);
    level = (refl, refl);
    reset = (refl, refl);
    clock_and_bits = (refl, refl);
  },
  refl,
  refl,
)
