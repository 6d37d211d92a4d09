-- ===== src/Device/Clocks.antt =====
-- The clock that a peripheral needs.
use stm32f3_oscilloscope.Prelude.{Option, none, some}
use stm32f3_oscilloscope.Device.Fields.{
  rcc, gpioa, flash, gpiob, spi2, gpioc, gpiod, gpioe, tim2, tim15, dac, dma2, dma1, adc, core,
  Field, Peripheral, rcc_ahbenr_adc12en, rcc_ahbenr_dma2en, rcc_ahbenr_dmaen, rcc_ahbenr_iopaen,
  rcc_ahbenr_iopben, rcc_ahbenr_iopcen, rcc_ahbenr_iopden, rcc_ahbenr_iopeen, rcc_apb1enr_dacen,
  rcc_apb1enr_spi2en, rcc_apb1enr_tim2en, rcc_apb2enr_tim15en,
}

-- The bit of the reset and clock controller that turns a peripheral's clock on. The controller and
-- the peripherals of the core need none.
abbrev pub clock_enable : Peripheral → Option Field
clock_enable rcc = none
clock_enable gpioa = some rcc_ahbenr_iopaen
clock_enable flash = none
clock_enable gpiob = some rcc_ahbenr_iopben
clock_enable spi2 = some rcc_apb1enr_spi2en
clock_enable gpioc = some rcc_ahbenr_iopcen
clock_enable gpiod = some rcc_ahbenr_iopden
clock_enable gpioe = some rcc_ahbenr_iopeen
clock_enable tim2 = some rcc_apb1enr_tim2en
clock_enable tim15 = some rcc_apb2enr_tim15en
clock_enable dac = some rcc_apb1enr_dacen
clock_enable dma2 = some rcc_ahbenr_dma2en
clock_enable dma1 = some rcc_ahbenr_dmaen
clock_enable adc = some rcc_ahbenr_adc12en
clock_enable core = none
