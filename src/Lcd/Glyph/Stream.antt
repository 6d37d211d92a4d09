-- ===== src/Lcd/Glyph/Stream.antt =====
-- Colors sent one after another, by position.
use stm32f3_oscilloscope.Prelude.{ℕ, zero, suc, ◌+◌, ◌≤◌, ◌<◌, ◌≡◌, refl, List, [], ◌++◌, arith}
use native.Mathlib.Nat.{zero-add, suc-add}
use stm32f3_oscilloscope.Device.{Action}
use stm32f3_oscilloscope.Lcd.{send_color}

-- The colors `f i`, `f (i + 1)`, …, `n` of them.
abbrev pub send_stream : (ℕ → ℕ) → ℕ → ℕ → List Action
send_stream f zero i = []
send_stream f (suc n) i = send_color (f i) ++ send_stream f n (i + 1)

pub send_stream-ext :
    (f g : ℕ → ℕ) (n i : ℕ)
    → ((k : ℕ) → i ≤ k → k < i + n → f k ≡ g k)
    → send_stream f n i ≡ send_stream g n i
send_stream-ext f g zero i same = refl
send_stream-ext f g (suc n) i same = rw (
  same i (omega arith) (omega arith),
  send_stream-ext f g n (i + 1) (λ k lo hi. same k (omega arith) (omega arith)),
)

pub send_stream-shift :
    (f : ℕ → ℕ) (m n i j : ℕ) → i + m ≡ j → send_stream (λ k. f (k + m)) n i ≡ send_stream f n j
send_stream-shift f m zero i j e = refl
send_stream-shift f m (suc n) i j e = rw (e, send_stream-shift f m n (i + 1) (j + 1) (omega arith))

pub send_stream-append :
    (f : ℕ → ℕ) (m n i j : ℕ)
    → i + m ≡ j
    → send_stream f m i ++ send_stream f n j ≡ send_stream f (m + n) i
send_stream-append f zero n i j e = let same : i ≡ j = omega arith in rw (zero-add, same)
send_stream-append f (suc m) n i j e =
    rw (suc-add, send_stream-append f m n (i + 1) j (omega arith))
