-- ===== src/Boot/Armed.antt =====
-- The DMA channel of the capture after the preparation of main.rs.
use stm32f3_oscilloscope.Prelude.{
  ℕ, ◌*◌, ◌≡◌, false, refl, ◌∙◌, List, [], ◌∷◌, ◌++◌, length, get_or, arith,
}
use stm32f3_oscilloscope.Prelude.Word.{Build, ok, >>=-of_ok}
use stm32f3_oscilloscope.Device.{
  Action, write, Addresses, Registers, run, dma1_ccr1_en, dma1_cndtr1, tim2_arr,
}
use stm32f3_oscilloscope.Device.Safety.{run-append}
use stm32f3_oscilloscope.Led.{ld4, led_on}
use stm32f3_oscilloscope.Siggen.Configure as Generator
use stm32f3_oscilloscope.Siggen.Setup.{siggen_setup-ok}
use stm32f3_oscilloscope.Capture.{timebase_actions}
use stm32f3_oscilloscope.Capture.Configure as Input
use stm32f3_oscilloscope.Capture.Setup.{setup-ok, setup_actions-IsReady}
use stm32f3_oscilloscope.Lcd.{landscape, green, black}
use stm32f3_oscilloscope.Lcd.Text.{print}
use stm32f3_oscilloscope.Lcd.Print.{print-glyphs}
use stm32f3_oscilloscope.Lcd.Silent.{glyphs-IsSilent}
use stm32f3_oscilloscope.Settings.{bytes, siggen_frequencies, timebase_intervals}
use stm32f3_oscilloscope.Settings.Status.{
  blank_line, line, unset, entry, set_siggen_freq_from_index_lem,
  set_capture_timebase_from_index_lem, siggen_label-short, timebase_label-short,
}
use stm32f3_oscilloscope.Sweep
use stm32f3_oscilloscope.Screen.{Screen, Driver, show}
use stm32f3_oscilloscope.Screen.Dark.{IsDark}
use stm32f3_oscilloscope.World.Frame.{timing, Keeps, Keeps-append, IsSilent-Keeps, status-Keeps}
use stm32f3_oscilloscope.Boot.Drawn.{
  display_start, title, earlier, tuned, timed, later-StaysDark, prepared-IsDark, prepared-IsOrderly,
}
use stm32f3_oscilloscope.Screen.Controller.Order.{IsOrderly}
use stm32f3_oscilloscope.Boot.{paint_column, paint_columns, graticule, prepare}

generator-Keeps : (a : Addresses) → Keeps (Generator.setup_actions a)
unfolding Generator.setup_actions
generator-Keeps a = record { enable = λ r. refl; counter = λ r. refl; timing = λ r. refl }

led_on-Keeps : Keeps (led_on ld4)
unfolding led_on
led_on-Keeps = record { enable = λ r. refl; counter = λ r. refl; timing = λ r. refl }

graticule-Keeps : Keeps graticule
unfolding graticule paint_columns paint_column
graticule-Keeps = record { enable = λ r. refl; counter = λ r. refl; timing = λ r. refl }

display-Keeps : Keeps display_start
display-Keeps = record { enable = λ r. refl; counter = λ r. refl; timing = λ r. refl }

write-Keeps : (arr : ℕ) → Keeps (write ((tim2_arr, arr) ∷ []) ∷ [])
write-Keeps arr = record { enable = λ r. refl; counter = λ r. refl; timing = λ r. refl }

timebase-Keeps : (arr psc : ℕ) → Keeps (timebase_actions arr psc)
timebase-Keeps arr psc = record { enable = λ r. refl; counter = λ r. refl; timing = λ r. refl }

setup-timing : (a : Addresses) (r : Registers) → timing (run (Input.setup_actions a) r) ≡ timing r
unfolding Input.setup_actions
setup-timing a r = refl

-- Actions around the setup of the capture that leave its channel alone.
around-armed :
    (a : Addresses) (before after : List Action) (r : Registers)
    → Keeps before
    → Keeps after
    → r dma1_ccr1_en ≡ 0
    → let r' = run (before ++ (Input.setup_actions a ++ after)) r in
      (r' dma1_ccr1_en ≡ 0) × (r' dma1_cndtr1 ≡ 160) × (timing r' ≡ timing r)
around-armed a before after r hb ha idle =
    let ready = setup_actions-IsReady a (run before r) (hb.enable r ∙ idle) in
    let s = run (Input.setup_actions a) (run before r) in
    rw
      (
        run-append before (Input.setup_actions a ++ after) r,
        run-append (Input.setup_actions a) after (run before r),
      )
      (
        ha.enable s ∙ ready.transfer.0,
        ha.counter s ∙ ready.transfer.1,
        ha.timing s ∙ setup-timing a (run before r) ∙ hb.timing r,
      )

earlier-Keeps : (font : List ℕ) (a : Addresses) → Keeps (earlier font a)
earlier-Keeps font a =
    Keeps-append display_start (title font ++ Generator.setup_actions a) display-Keeps (
      Keeps-append (title font) (Generator.setup_actions a)
        (IsSilent-Keeps (title font) (glyphs-IsSilent font green black 0 0 (bytes "stm-scope")))
        (generator-Keeps a))

module _ (b : Build) (font : List ℕ) (size : length font ≡ 1536) where
  title-ok : print b font green black landscape (bytes "stm-scope") 0 0 ≡ ok (title font)
  title-ok =
      (print-glyphs font green black 0 b landscape size (omega arith) (omega arith) (omega arith)
          (bytes "stm-scope") 0 (omega arith)).0
        (omega arith)

  tuned-Keeps : (arr : ℕ) (label : List ℕ) → Keeps (tuned font arr label)
  tuned-Keeps arr label =
      Keeps-append (write ((tim2_arr, arr) ∷ []) ∷ [])
        (blank_line ++ (line font 0 (bytes "siggen freq:") ++ line font 104 label))
        (write-Keeps arr) (status-Keeps b font size 0 104 (bytes "siggen freq:") label)

  timed-Keeps : (arr psc : ℕ) (label : List ℕ) → Keeps (timed font arr psc label)
  timed-Keeps arr psc label =
      Keeps-append (timebase_actions arr psc)
        (blank_line ++ (line font 0 label ++ line font (8 * length label) (bytes "/div")))
        (timebase-Keeps arr psc)
        (status-Keeps b font size 0 (8 * length label) label (bytes "/div"))

  later-Keeps :
      (arr reload psc : ℕ) (frequency interval : List ℕ)
      → Keeps (
          led_on ld4 ++ (graticule ++ (tuned font arr frequency ++ timed font reload psc interval)))
  later-Keeps arr reload psc frequency interval =
      let settings = tuned font arr frequency ++ timed font reload psc interval in
      Keeps-append (led_on ld4) (graticule ++ settings) led_on-Keeps (
        Keeps-append graticule settings graticule-Keeps (
          Keeps-append (tuned font arr frequency) (timed font reload psc interval)
            (tuned-Keeps arr frequency) (timed-Keeps reload psc interval)))

-- With the DMA channel of the capture disabled at reset, the data registers at the addresses that
-- the code asserts, and a font of 1,536 bytes, the preparation returns in both builds, and leaves
-- the channel disabled with 160 items to go, as the main loop expects, the clocks and SysTick
-- as they were, and no white pixel on the display; and it sends pixels to an open window only.
pub prepare-armed :
    (b : Build) (font : List ℕ) (a : Addresses) (r : Registers)
    → length font ≡ 1536
    → a.dac_dhr12r2 ≡ 0x40007414
    → a.dac_dhr8r1 ≡ 0x40007410
    → a.adc1_dr ≡ 0x50000040
    → r dma1_ccr1_en ≡ 0
    → (actions : List Action) × (prepare b landscape font a ≡ ok (Sweep.start, actions))
      × (run actions r dma1_ccr1_en ≡ 0)
      × (run actions r dma1_cndtr1 ≡ 160)
      × (timing (run actions r) ≡ timing r)
      × ((d : Driver) (s : Screen) → IsDark (show d actions s))
      × IsOrderly false actions
unfolding prepare
prepare-armed b font a r size e3 e4 e1 idle =
    let f = get_or siggen_frequencies 6 entry in
    let t = get_or timebase_intervals 8 unset in
    let (arr, tunes, _, _) = set_siggen_freq_from_index_lem b font size 6 (omega arith) in
    let (reload, psc, times, _, _, _, _) =
      set_capture_timebase_from_index_lem b font size 8 (omega arith) in
    let later =
      led_on ld4 ++ (graticule ++ (tuned font arr f.label ++ timed font reload psc t.label)) in
    let (off, full, kept) =
      around-armed a (earlier font a) later r (earlier-Keeps font a)
        (later-Keeps b font size arr reload psc f.label t.label) idle in
    (
      earlier font a ++ (Input.setup_actions a ++ later),
      >>=-of_ok _ (title-ok b font size) (
          >>=-of_ok _ (siggen_setup-ok b a e3 e4)
            (>>=-of_ok _ (setup-ok b a e1) (>>=-of_ok _ tunes (>>=-of_ok _ times refl)))),
      off,
      full,
      kept,
      λ d s.
          prepared-IsDark d font a later s (later-StaysDark d font arr reload psc f.label t.label),
      prepared-IsOrderly font a arr reload psc f.label t.label (siggen_label-short 6 (omega arith))
          (timebase_label-short 8 (omega arith)),
    )
