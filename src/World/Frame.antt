-- ===== src/World/Frame.antt =====
-- What the steps of the main loop do to the DMA channel.
use stm32f3_oscilloscope.Prelude.{
  ℕ, ◌+◌, ◌%◌, ◌≡◌, refl, ◌∙◌, inl, inr, Bool, true, false, List, [], ◌∷◌, ◌++◌, length, bit_and,
  ◌^◌, ◌*◌, get_or, ◌==◌, Bool-cases, arith,
}
use stm32f3_oscilloscope.Prelude.Word.{Build, debug, release, ok, >>=-of_ok}
use stm32f3_oscilloscope.Device.{
  Action, write, Registers, run, dma1_ccr1_en, dma1_cndtr1, adc1_isr_ovr, gpioe_odr, tim2_arr,
  rcc_cfgr_sws, rcc_cfgr_pllsrc, rcc_cfgr_pllmul, rcc_cfgr_hpre, rcc_cfgr_ppre1, rcc_cfgr_ppre2,
  syst_clock_source, syst_reload, syst_interrupt, syst_counter,
}
use stm32f3_oscilloscope.Device.Safety.{run-append}
use stm32f3_oscilloscope.Led.{ld5, led_toggle}
use stm32f3_oscilloscope.Capture.{finish_sweep, check_adc_ovr_flag, timebase_actions}
use stm32f3_oscilloscope.Lcd.{landscape, green, black}
use stm32f3_oscilloscope.Lcd.Print.{glyphs, print-glyphs}
use stm32f3_oscilloscope.Lcd.Silent.{
  IsSilent, IsSilent-append, send_times-IsSilent, glyphs-IsSilent,
}
use stm32f3_oscilloscope.Settings.{bytes, siggen_frequencies, timebase_intervals}
use stm32f3_oscilloscope.Settings.Status.{
  blank_line, line, unset, entry, set_siggen_freq_from_index_lem,
  set_capture_timebase_from_index_lem, siggen_label-short, timebase_label-short,
}
use stm32f3_oscilloscope.Sweep.{Scope, before, erase, report_overrun, sweep_after}
use stm32f3_oscilloscope.Screen.Marginal.{
  IsMarginal, IsMarginal-append, quiet-IsMarginal, nothing-IsMarginal, check-IsMarginal,
  toggle-IsMarginal, warning-IsMarginal, tuned-IsMarginal, timed-IsMarginal,
}
use stm32f3_oscilloscope.Controls.{next_timebase, next_siggen_freq}

-- What the rates of the timers depend on: the sources and dividers of the clocks, and SysTick.
abbrev pub timing : Registers → List ℕ
timing r =
    r rcc_cfgr_sws
    ∷ r rcc_cfgr_pllsrc
    ∷ r rcc_cfgr_pllmul
    ∷ r rcc_cfgr_hpre
    ∷ r rcc_cfgr_ppre1
    ∷ r rcc_cfgr_ppre2
    ∷ r syst_clock_source
    ∷ r syst_reload
    ∷ r syst_interrupt
    ∷ r syst_counter
    ∷ []

-- A sequence of actions that leaves the channel's enable bit and its counter alone, and the rates
-- of the timers.
pub record Keeps (actions : List Action) : Type 0 where
  pub enable : (r : Registers) → run actions r dma1_ccr1_en ≡ r dma1_ccr1_en
  pub counter : (r : Registers) → run actions r dma1_cndtr1 ≡ r dma1_cndtr1
  pub timing : (r : Registers) → timing (run actions r) ≡ timing r

pub Keeps-append : (xs ys : List Action) → Keeps xs → Keeps ys → Keeps (xs ++ ys)
Keeps-append xs ys hx hy = record {
  enable = λ r. rw (run-append xs ys r) (hy.enable (run xs r) ∙ hx.enable r);
  counter = λ r. rw (run-append xs ys r) (hy.counter (run xs r) ∙ hx.counter r);
  timing = λ r. rw (run-append xs ys r) (hy.timing (run xs r) ∙ hx.timing r);
}

pub IsSilent-Keeps : (actions : List Action) → IsSilent actions → Keeps actions
IsSilent-Keeps actions h = record {
  enable = λ r. rw (h r);
  counter = λ r. rw (h r);
  timing = λ r. rw (h r);
}

pub erase-IsSilent : (x y : ℕ) → IsSilent (erase x y)
unfolding erase
erase-IsSilent x y r = ground arith

check-Keeps : (r : Registers) → Keeps (check_adc_ovr_flag r).1
unfolding check_adc_ovr_flag
check-Keeps r = elim (Bool-cases (r adc1_isr_ovr == 0)) [
  | inl e ↦ rw e (record { enable = λ r. refl; counter = λ r. refl; timing = λ r. refl })
  | inr e ↦ rw e (record { enable = λ r. refl; counter = λ r. refl; timing = λ r. refl })
]

toggle-Keeps : (odr : ℕ) → Keeps (led_toggle ld5 odr)
unfolding led_toggle
toggle-Keeps odr = elim (Bool-cases (bit_and odr (2 ^ 10) == 0)) [
  | inl e ↦ rw e (record { enable = λ r. refl; counter = λ r. refl; timing = λ r. refl })
  | inr e ↦ rw e (record { enable = λ r. refl; counter = λ r. refl; timing = λ r. refl })
]

module _ (b : Build) (font : List ℕ) (size : length font ≡ 1536) where
  overrun-ok :
      (ovr : Bool)
      → (actions : List Action) × (report_overrun b landscape font ovr ≡ ok actions)
        × Keeps actions
        × IsMarginal actions
  unfolding report_overrun
  overrun-ok ovr = warn b ovr
    where
      silent : Keeps []
      silent = record { enable = λ r. refl; counter = λ r. refl; timing = λ r. refl }

      warn :
          (b : Build) (ovr : Bool)
          → (actions : List Action) × (report_overrun b landscape font ovr ≡ ok actions)
            × Keeps actions
            × IsMarginal actions
      warn debug true =
          let text = (bytes "OVR set") in
          (
            glyphs font green black 104 0 text,
            (print-glyphs font green black 104 debug landscape size (omega arith) (omega arith)
                  (omega arith) (bytes "OVR set") 0 (omega arith)).0
                (omega arith),
            IsSilent-Keeps _ (glyphs-IsSilent font green black 104 0 text),
            warning-IsMarginal font,
          )
      warn debug false = ([], refl, silent, nothing-IsMarginal)
      warn release ovr = ([], refl, silent, nothing-IsMarginal)

  -- The arm of `SweepState::After` returns, leaves the channel disabled with its counter reset, and
  -- keeps off the trace.
  pub sweep_after-ok :
      (r : Registers) (captured : List ℕ) (s : Scope)
      → (actions : List Action) × (sweep_after b landscape font r captured s
          ≡ ok (record s { state = before }, actions))
        × ((r' : Registers) → run actions r' dma1_ccr1_en ≡ 0)
        × ((r' : Registers) → run actions r' dma1_cndtr1 ≡ 160)
        × IsMarginal actions
  unfolding sweep_after finish_sweep
  sweep_after-ok r captured s =
      let (warning, returns, quiet, aside) = overrun-ok (check_adc_ovr_flag r).0 in
      let rest = (check_adc_ovr_flag r).1 ++ (warning ++ led_toggle ld5 (r gpioe_odr)) in
      let kept : Keeps rest =
        Keeps-append (check_adc_ovr_flag r).1 (warning ++ led_toggle ld5 (r gpioe_odr))
          (check-Keeps r)
          (Keeps-append warning (led_toggle ld5 (r gpioe_odr)) quiet
            (toggle-Keeps (r gpioe_odr))) in
      (
        finish_sweep ++ rest,
        >>=-of_ok _ returns refl,
        λ r'. rw (run-append finish_sweep rest r') (kept.enable (run finish_sweep r')),
        λ r'. rw (run-append finish_sweep rest r') (kept.counter (run finish_sweep r')),
        IsMarginal-append finish_sweep rest (quiet-IsMarginal finish_sweep (λ d s. refl) tt) (
            IsMarginal-append (check_adc_ovr_flag r).1 (warning ++ led_toggle ld5 (r gpioe_odr))
              (check-IsMarginal r)
              (IsMarginal-append warning (led_toggle ld5 (r gpioe_odr)) aside
                (toggle-IsMarginal ld5 (r gpioe_odr)))),
      )

  blank_line-IsSilent : IsSilent blank_line
  blank_line-IsSilent r = send_times-IsSilent 1920 0 r

  line-IsSilent : (x : ℕ) (text : List ℕ) → IsSilent (line font x text)
  line-IsSilent x text = glyphs-IsSilent font green black 116 x text

  pub status-Keeps :
      (x x' : ℕ) (text text' : List ℕ)
      → Keeps (blank_line ++ (line font x text ++ line font x' text'))
  status-Keeps x x' text text' =
      IsSilent-Keeps (blank_line ++ (line font x text ++ line font x' text')) (
        IsSilent-append blank_line (line font x text ++ line font x' text') blank_line-IsSilent (
          IsSilent-append (line font x text) (line font x' text') (line-IsSilent x text)
            (line-IsSilent x' text')))

  -- The next entry of the timebase table is set, round the end of the table, and the channel and
  -- the trace are left alone.
  pub next_timebase-ok :
      (s : Scope)
      → let i = (s.timebase_index + 1) % 17 in
        (actions : List Action) × (next_timebase b landscape font s
          ≡ ok (record s { timebase_index = i }, actions))
        × Keeps actions
        × IsMarginal actions
  unfolding next_timebase
  next_timebase-ok s =
      let i = (s.timebase_index + 1) % 17 in
      let (arr, psc, set, fits, divides, above, below) =
        set_capture_timebase_from_index_lem b font size i (omega arith) in
      let t = get_or timebase_intervals i unset in
      let shown = line font 0 t.label ++ line font (8 * length t.label) (bytes "/div") in
      (
        timebase_actions arr psc ++ (blank_line ++ shown),
        >>=-of_ok _ set refl,
        Keeps-append (timebase_actions arr psc) (blank_line ++ shown)
            (record { enable = λ r. refl; counter = λ r. refl; timing = λ r. refl })
            (status-Keeps 0 (8 * length t.label) t.label (bytes "/div")),
        timed-IsMarginal font arr psc t.label (timebase_label-short i (omega arith)),
      )

  -- The next entry of the frequency table is set, round the end of the table, and the channel and
  -- the trace are left alone.
  pub next_siggen_freq-ok :
      (s : Scope)
      → let i = (s.siggen_freq_index + 1) % 9 in
        (actions : List Action) × (next_siggen_freq b landscape font s
          ≡ ok (record s { siggen_freq_index = i }, actions))
        × Keeps actions
        × IsMarginal actions
  unfolding next_siggen_freq
  next_siggen_freq-ok s =
      let i = (s.siggen_freq_index + 1) % 9 in
      let (arr, set, above, below) = set_siggen_freq_from_index_lem b font size i (omega arith) in
      let f = get_or siggen_frequencies i entry in
      let shown = line font 0 (bytes "siggen freq:") ++ line font 104 f.label in
      (
        write ((tim2_arr, arr) ∷ []) ∷ (blank_line ++ shown),
        >>=-of_ok _ set refl,
        Keeps-append (write ((tim2_arr, arr) ∷ []) ∷ []) (blank_line ++ shown)
            (record { enable = λ r. refl; counter = λ r. refl; timing = λ r. refl })
            (status-Keeps 0 104 (bytes "siggen freq:") f.label),
        tuned-IsMarginal font arr f.label (siggen_label-short i (omega arith)),
      )
