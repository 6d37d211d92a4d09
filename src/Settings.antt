-- ===== src/Settings.antt =====
-- The tables of main.rs, and the functions that set an entry and show it on the status line.
pub mod Status
pub mod Labels
pub mod Errors
mod Tests
use Prim.Native.Char.{Char, code}
use Prim.Native.String
use Prim.Native.String.{String}
use stm32f3_oscilloscope.Prelude.{ℕ, List, [], ◌∷◌, ◌++◌, length, ◌%◌, ◌^◌}
use stm32f3_oscilloscope.Prelude.Int.{pos}
use stm32f3_oscilloscope.Prelude.Word.{Build, Result, ok, ◌>>=◌, index, mul_bits}
use stm32f3_oscilloscope.Device.{Action}
use stm32f3_oscilloscope.Siggen.{siggen_set_freq}
use stm32f3_oscilloscope.Capture.{set_timebase}
use stm32f3_oscilloscope.Lcd.{Panel, green, black, color_code, fill_rect}
use stm32f3_oscilloscope.Lcd.Text.{print}

-- The bytes of an ASCII literal.
abbrev pub bytes : String → List ℕ
bytes String.[] = []
bytes (String.◌∷◌ c s) = code c ∷ bytes s

pub record SiggenFreq : Type 0 where
  pub frequency : ℕ
  pub label : List ℕ

abbrev freq : ℕ → String → SiggenFreq
freq f l = record { frequency = f; label = bytes l }

abbrev pub siggen_frequencies : List SiggenFreq
siggen_frequencies =
    freq 1 "1Hz"
    ∷ freq 3 "3Hz"
    ∷ freq 10 "10Hz"
    ∷ freq 33 "33Hz"
    ∷ freq 100 "100Hz"
    ∷ freq 333 "333Hz"
    ∷ freq 1000 "1kHz"
    ∷ freq 3333 "3.3kHz"
    ∷ freq 10000 "10kHz"
    ∷ []

pub record TimebaseInterval : Type 0 where
  pub sample_rate : ℕ
  pub label : List ℕ

abbrev interval : ℕ → String → TimebaseInterval
interval r l = record { sample_rate = r; label = bytes l }

abbrev pub timebase_intervals : List TimebaseInterval
timebase_intervals =
    interval 1 "32s"
    ∷ interval 32 "1s"
    ∷ interval 64 ".5s"
    ∷ interval 160 ".2s"
    ∷ interval 320 ".1s"
    ∷ interval 640 "50ms"
    ∷ interval 1600 "20ms"
    ∷ interval 3200 "10ms"
    ∷ interval 6400 "5ms"
    ∷ interval 16000 "2ms"
    ∷ interval 32000 "1ms"
    ∷ interval 64000 ".5ms"
    ∷ interval 160000 ".2ms"
    ∷ interval 320000 ".1ms"
    ∷ interval 640000 "~50us"
    ∷ interval 1600000 "20us"
    ∷ interval 3130434 "~10us"
    ∷ []

module _ (b : Build) (p : Panel) (font : List ℕ) where
  unfoldable pub clear_status_line : Result (List Action)
  clear_status_line = fill_rect b p (pos 0) (pos 116) (pos 160) (pos 12) (color_code black)

  abbrev pub print_status : List ℕ → ℕ → Result (List Action)
  print_status text x = print b font green black p text x 116

  unfoldable pub set_siggen_freq_from_index : ℕ → Result (List Action)
  unfolding clear_status_line
  set_siggen_freq_from_index i = do
    f ← index siggen_frequencies i
    set ← siggen_set_freq b f.frequency
    clear ← clear_status_line
    caption ← print_status (bytes "siggen freq:") 0
    label ← print_status f.label 104
    ok (set ++ (clear ++ (caption ++ label)))

  unfoldable pub set_capture_timebase_from_index : ℕ → Result (List Action)
  unfolding clear_status_line
  set_capture_timebase_from_index i = do
    t ← index timebase_intervals i
    set ← set_timebase b t.sample_rate
    clear ← clear_status_line
    label ← print_status t.label 0
    x ← mul_bits 8 b 8 (length t.label % 2 ^ 8)
    unit ← print_status (bytes "/div") x
    ok (set ++ (clear ++ (label ++ unit)))
