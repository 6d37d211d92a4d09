-- ===== src/Lib.antt =====
-- The STM32F3 oscilloscope: the Rust firmware of an oscilloscope and signal generator on the
-- STM32F3DISCOVERY board, as a model of its code with the theorems that make it correct.
--
-- The parts, and the files that model them:
--
--   Led.antt         src/led.rs: the eight LEDs on port E. Led/Port.antt is the port itself, a
--                    parameter with the documented law of its bit set and reset register.
--   Siggen.antt      src/siggen.rs: `siggen_set_freq`; Siggen/Tables.antt has `SINE_12BIT` and
--                    `RAMP_8BIT`, and Siggen/Configure.antt `siggen_setup`.
--   Capture.antt     src/capture.rs: `begin_sweep`, `get_transferred_sample_count`, `finish_sweep`,
--                    `check_adc_ovr_flag` and `set_timebase`; Capture/Configure.antt has `setup`.
--   Lcd.antt         src/st7735.rs: the wrappers of the C driver's functions and
--                    `st7735_fill_rect`; Lcd/Text.antt has `st7735_putc_unchecked`,
--                    `st7735_putc` and `st7735_print`.
--   Screen.antt      What the display shows: the memory of its controller, which takes the data
--                    bytes of the drawing into a window, row by row. Screen/Status.antt has the
--                    status line as a picture, Screen/Press.antt a button from its pin to it, and
--                    Screen/Controller.antt the controller's commands and the bytes that come in.
--   Font.antt        src/parallax_8x12_font.rs: the font table, row by row. Font/Readable.antt is
--                    about texts in this font, and Font/Labels.antt about the status line in it.
--   Spi.antt         src/st7735.rs: the pins of the display's connection; Spi/Hardware.antt and
--                    Spi/Software.antt have `st7735_setup`, `st7735_send_cmd` and
--                    `st7735_send_data` of the default build and of the build with the feature
--                    `software-spi`. Spi/Link.antt is the contract of both, a record, Spi/Fifo.antt
--                    SPI2 with its transmit buffer, and Spi/Wire.antt the pins as the display
--                    reads them.
--   Sysclk.antt      src/sysclk.rs: `set_sys_clock`; Sysclk/Rules.antt has the clock tree and the
--                    rules of the reference manual.
--   Interrupts.antt  src/main.rs: the SysTick handler with the debouncing of the buttons, the
--                    delay counter, `delay_ms`, the accessors of the buttons, and the handler of
--                    DMA1 channel 1.
--   Settings.antt    src/main.rs: the tables of frequencies and timebases, and the functions that
--                    set an entry and show it on the status line. Settings/Labels.antt reads the
--                    labels of the timebases as times, and Settings/Errors.antt is about indices
--                    past the tables.
--   Sweep.antt       src/main.rs: the variables of the main loop, and its match on `SweepState`.
--   Controls.antt    src/main.rs: the two buttons in the main loop, and one whole round of it.
--   Boot.antt        src/main.rs: from the start of the display to the main loop, with the painting
--                    of the graticule; Boot/Start.antt has the start of `main` before it, and the
--                    whole of it.
--   World.antt       The main loop with the DMA channel and everything else that happens in
--                    between, as a step relation; World/Picture.antt has the display too.
--   Program.antt     All of it: the start of `main`, and then the three parts of its loop, the two
--                    interrupt handlers and the hardware in any order. Program/Watch.antt has the
--                    display too, and Program/Display.antt is about it from the boot on.
--                    Program/Linked.antt has the connection between them, byte by byte, and
--                    Program/Arrival.antt is about what arrives at the display.
--                    Program/Serving.antt is about whole rounds with the buttons pressed.
--
-- Shared: Prelude has the tests, lists, signed integers, machine words and bits that the others
-- use; Device has the register accesses as actions, the registers they leave, and three rules of
-- the hardware, about clocks, DMA channels and the reset of SPI2.
--
-- How the code is modelled. A function that accesses the hardware returns the sequence of its
-- accesses (`Action`), with what it reads as arguments; `run` gives the registers that a sequence
-- leaves. A function that can panic returns `Result`. The arithmetic is Rust's, in both builds: an
-- overflow panics in a debug build and wraps in a release build. A busy wait on a register is one
-- `await`. `delay_ms` is a recursion over the intervals between its polls, with the ticks in each;
-- it waits on when the list ends. The wait for the external clock is a recursion over what its flag
-- reads, and the breakpoint after 1,280 reads is where the program stops. The loops of the
-- graticule have fuel for five rounds and four, one more than their bounds allow; the other loops
-- are bounded by their data.
--
-- The main loop and the hardware interact through the registers and the buffer of conversions. In
-- World.antt each step of the loop reads the registers once: a transfer between the reads of one
-- pass could only raise the count of samples that the pass then does not use. A transfer stores a
-- 12-bit conversion at the place that the counter gives and counts down, as the reference manual
-- has it. The buffer is not written in any other way.
--
-- SPI2 holds up to five bytes, of which the first is being shifted out; it may shift at any time,
-- also between two accesses of the program, and a byte written to a full buffer is lost. The
-- display reads A0/DC with the last bit of a byte, and a bit at each rising clock.
--
-- Program.antt adds the interrupt handlers and their variables, and leaves the order of the loop's
-- three parts open, so that it allows more than the code does. The ticks that come in the middle of
-- a check of a button are arguments of the check.
--
-- The controller of the display takes two data bytes for a pixel, the high one first, and goes on
-- through the window from left to right and row by row, and from its end to its start. A color is
-- on the display once its second byte is sent. In Screen.antt a call of the C driver acts on this
-- memory at once. Screen/Controller.antt is the layer below: the controller takes commands and data
-- bytes (CASET, RASET and RAMWR, and others that are not modelled), a data byte is a pixel only
-- behind RAMWR, and every access of the program is the bytes that it sends.
--
-- Parameters: the font (12 bytes for each of 128 characters; Font.antt is the program's own), the
-- size of the panel, the addresses that the linker chooses, and the port of the LEDs. The calls of
-- the C driver of the display (src/old_c) are actions. What they leave on the display is the record
-- `Driver` of Screen.antt, with the documented effects that the drawing relies on: a pixel on the
-- panel is drawn, a window is opened at its first pixel, and the whole panel is filled.
-- Screen/Panel.antt is one such driver. The bytes that they send are the record `Protocol` of
-- Screen/Controller.antt, with the same effects once the bytes have arrived;
-- Screen/Controller/Plain is one such. The reset line and the chip select, which the C driver
-- drives while it starts the display, are modelled in Spi.antt, but not its use of them.
--
-- Not modelled: the C driver, which is another project's code, and build.rs, which only compiles
-- and copies files. Of the other files the imports and declarations of external functions are left
-- out, and the tables of handlers, whose dispatch is the events `tick` and `capture_done` of
-- Program.antt. `channel_1_data` is the argument `captured` of the sweep.
pub mod Prelude
pub mod Device
pub mod Sysclk
pub mod Led
pub mod Siggen
pub mod Capture
pub mod Font
pub mod Lcd
pub mod Spi
pub mod Interrupts
pub mod Settings
pub mod Sweep
pub mod Controls
pub mod Boot
pub mod Screen
pub mod World
pub mod Program
