-- ===== src/World/Picture/Samples.antt =====
-- A whole sweep: the samples that the DMA channel stores, and the display at its end.
use stm32f3_oscilloscope.Prelude.{
  ℕ, zero, suc, ◌+◌, ◌-◌, ◌^◌, ◌<◌, ◌≤◌, ◌≡◌, ◌≢◌, refl, sym, ap, subst, ◌∙◌, ◌⊎◌, inl, inr, List,
  [], ◌∷◌, ◌++◌, length, length-set, get_or, set, get_or-set_self, get_or-set_ne, All, ltb, ltb→le,
  ◌==◌, ==→≡, ==→≢, Bool-cases, true, false, if◌then◌else◌, arith,
}
use stm32f3_oscilloscope.Prelude.Word.{Build, ok, >>=-to_ok}
use stm32f3_oscilloscope.Device.{store, dma1_ccr1_en, dma1_cndtr1}
use stm32f3_oscilloscope.Led.{ld3, led_on}
use stm32f3_oscilloscope.Capture.{begin_sweep}
use stm32f3_oscilloscope.Lcd.{landscape}
use stm32f3_oscilloscope.Sweep.{before, during, after, Scope, sweep, sweep_from}
use stm32f3_oscilloscope.Sweep.Plot.{plotted_row}
use stm32f3_oscilloscope.Screen.{Screen, Driver}
use stm32f3_oscilloscope.Screen.Aside.{white_code}
use stm32f3_oscilloscope.World.{World, after_actions, transfer}
use stm32f3_oscilloscope.World.Sound.{phase_at, IsSound-IsComplete}
use stm32f3_oscilloscope.World.Progress.{passes, passes-after}
use stm32f3_oscilloscope.World.Picture.{Picture, after_drawing, pass, hardware, Draws, here, next}
use stm32f3_oscilloscope.World.Picture.Invariant.{IsPictured, Draws-IsPictured}
use stm32f3_oscilloscope.World.Invariant.{ok_unique}

-- One sample stored, and the samples of a list in order.
abbrev stored : ℕ → World → World
stored sample w = record w {
  regs = store dma1_cndtr1 (w.regs dma1_cndtr1 - 1) w.regs;
  captured = set w.captured (160 - w.regs dma1_cndtr1) sample;
}

abbrev receive : List ℕ → World → World
receive [] w = w
receive (sample ∷ samples) w = receive samples (stored sample w)

-- The place of a sample in the buffer, with the later ones behind it.
stored_at :
    (sample : ℕ) (samples captured : List ℕ) (at i : ℕ)
    → at + suc (length samples) ≡ 160
    → length captured ≡ 160
    → (if ltb i (160 - length samples)
        then get_or (set captured at sample) i 0
        else get_or samples (i - (160 - length samples)) 0)
      ≡ (if ltb i at then get_or captured i 0 else get_or (sample ∷ samples) (i - at) 0)
stored_at sample samples captured at i e full =
    let behind : 160 - length samples ≡ at + 1 = omega arith in
    rw behind (elim (Bool-cases (i == at)) [
      | inl same ↦
          let here : i ≡ at = ==→≡ i at same in
          let now : ltb i (at + 1) ≡ true = ground (arith, here) in
          let before : ltb i at ≡ false = ground (arith, here) in
          let first : i - at ≡ 0 = omega (arith, here) in
          rw (now, before, first, here) (get_or-set_self captured at sample 0 (omega arith))
      | inr differs ↦
          let other : i ≢ at = ==→≢ i at differs in
          rw (get_or-set_ne captured at i sample 0 (λ e. other (sym e)))
            (elim (Bool-cases (ltb i at)) [
              | inl e ↦ let later : ltb i (at + 1) ≡ true = ground arith in rw (e, later) refl
              | inr e ↦
                  let later : ltb i (at + 1) ≡ false = ground arith in
                  let rest : i - at ≡ suc (i - (at + 1)) = omega (arith, ltb→le i at e, other) in
                  rw (e, later, rest) refl
            ])
    ])

receive-fills :
    (samples : List ℕ) (w : World)
    → w.regs dma1_cndtr1 ≡ length samples
    → length samples ≤ 160
    → length w.captured ≡ 160
    → ((receive samples w).regs dma1_cndtr1 ≡ 0)
      × ((receive samples w).scope ≡ w.scope)
      × ((i : ℕ)
          → i < 160
          → get_or (receive samples w).captured i 0 ≡ (
              if ltb i (160 - length samples)
              then get_or w.captured i 0
              else get_or samples (i - (160 - length samples)) 0))
receive-fills [] w left few full = (left, refl, λ i h. ground arith)
receive-fills (sample ∷ samples) w left few full =
    let at = 160 - w.regs dma1_cndtr1 in
    let (empty, same, filled) =
      receive-fills samples (stored sample w) (omega arith) (omega arith)
        (length-set w.captured at sample ∙ full) in
    (
      empty,
      same,
      λ i h.
          filled i h
          ∙ stored_at sample samples w.captured at i (omega arith) full
          ∙ ap
              (λ (n : ℕ).
                if ltb i (160 - n)
                then get_or w.captured i 0
                else get_or (sample ∷ samples) (i - (160 - n)) 0)
              left,
    )

from_start :
    (samples captured : List ℕ) (i : ℕ)
    → length samples ≡ 160
    → (if ltb i (160 - length samples)
        then get_or captured i 0
        else get_or samples (i - (160 - length samples)) 0)
      ≡ get_or samples i 0
from_start samples captured i full =
    let none_before : 160 - length samples ≡ 0 = omega arith in rw none_before (ground arith)

module _ (d : Driver) (b : Build) (font : List ℕ) (size : length font ≡ 1536) where
  receive-Draws :
      (samples : List ℕ) (u v : Picture)
      → v.world.regs dma1_ccr1_en ≡ 1
      → v.world.regs dma1_cndtr1 ≡ length samples
      → All (λ sample. sample < 2 ^ 12) samples
      → Draws d b landscape font u v
      → Draws d b landscape font u (record v { world = receive samples v.world })
  receive-Draws [] u v on left small path = path
  receive-Draws (sample ∷ samples) u v on left (low, small) path =
      receive-Draws samples u (record v { world = stored sample v.world }) on (omega arith) small
        (next path (hardware (transfer sample on (omega arith) low)))

  -- Passes with nothing in between.
  passes-Draws :
      (n : ℕ) (u v : Picture) (w : World)
      → passes b landscape font n v.world ≡ ok w
      → Draws d b landscape font u v
      → (s : Screen) × Draws d b landscape font u (record { world = w; screen = s })
        × (w.captured ≡ v.world.captured)
  unfolding passes
  passes-Draws zero u v w e path =
      let same : v.world ≡ w = ok_unique (ok w) v.world w (sym e) refl in
      (
        v.screen,
        subst (λ (w : World). Draws d b landscape font u (record { world = w; screen = v.screen }))
            same path,
        ap (λ (w : World). w.captured) (sym same),
      )
  passes-Draws (suc n) u v w e path =
      let (out, returns, rest) =
        >>=-to_ok (sweep b landscape font v.world.regs v.world.captured v.world.scope)
          (λ out. passes b landscape font n (after_actions v.world out)) w e in
      passes-Draws n u (after_drawing d v out) w rest (next path (pass out returns))

  -- The first pass of a sweep.
  begin-Draws :
      (v : Picture)
      → v.world.scope.state ≡ before
      → let begun = record v.world.scope { state = during; x_out = 0 } in
        Draws d b landscape font v (after_drawing d v (begun, begin_sweep ++ led_on ld3))
  unfolding sweep sweep_from
  begin-Draws v e =
      let w = v.world in
      next here (
        pass (record w.scope { state = during; x_out = 0 }, begin_sweep ++ led_on ld3)
          (ap (λ st. sweep_from b landscape font w.regs w.captured st w.scope) e))

  begin-counter :
      (v : Picture) (s : Scope)
      → (after_drawing d v (s, begin_sweep ++ led_on ld3)).world.regs dma1_cndtr1
        ≡ v.world.regs dma1_cndtr1
  unfolding begin_sweep led_on
  begin-counter v s = refl

  -- From any sound state of the world and the display before a sweep, with a font of 1,536 bytes
  -- and for any 160 samples of 12 bits that the DMA channel stores: the main loop has a way to the
  -- end of the sweep. There the only white pixel of a column is in the row of its sample, and where
  -- that row is above row 104 the pixel is white, or red in the top row.
  pub sweep-shows :
      (v : Picture) (samples : List ℕ)
      → IsPictured d b font size v
      → v.world.scope.state ≡ before
      → length samples ≡ 160
      → All (λ sample. sample < 2 ^ 12) samples
      → (v' : Picture) × Draws d b landscape font v v'
        × (v'.world.scope.state ≡ after)
        × ((i j : ℕ)
            → i < 160
            → j < 128
            → v'.screen.frame i j ≡ white_code
            → plotted_row (get_or samples i 0) ≡ j)
        × ((i : ℕ)
            → i < 160
            → let row = plotted_row (get_or samples i 0) in
              row < 104
              → (v'.screen.frame i row ≡ white_code) ⊎ ((row ≡ 0) × (v'.screen.frame i 0 ≡ 0xf800)))
  sweep-shows v samples h e full small =
      let begun = record v.world.scope { state = during; x_out = 0 } in
      let v₁ = after_drawing d v (begun, begin_sweep ++ led_on ld3) in
      let path₁ = begin-Draws v e in
      let h₁ = Draws-IsPictured d b font size v v₁ path₁ h in
      let (on, _, _) = phase_at v₁.world during refl h₁.sound in
      let left : v₁.world.regs dma1_cndtr1 ≡ length samples =
        begin-counter v begun ∙ (phase_at v.world before e h.sound).1 ∙ sym full in
      let (empty, same, filled) =
        receive-fills samples v₁.world left (omega arith) h₁.sound.buffer in
      let v₂ : Picture = record v₁ { world = receive samples v₁.world } in
      let path₂ = receive-Draws samples v v₁ on left small path₁ in
      let h₂ = Draws-IsPictured d b font size v v₂ path₂ h in
      let (w, returns, ends) =
        passes-after b font size v₂.world h₂.sound (ap (λ (s : Scope). s.state) same) empty in
      let (s, path, kept) = passes-Draws (160 - v₂.world.scope.x_out) v v₂ w returns path₂ in
      let v₃ : Picture = record { world = w; screen = s } in
      let h₃ = Draws-IsPictured d b font size v v₃ path h in
      let row = λ (i : ℕ) (hi : i < 160).
        ((IsSound-IsComplete w h₃.sound ends).1 i hi).0
        ∙ ap (λ captured. plotted_row (get_or captured i 0)) kept
        ∙ ap plotted_row (filled i hi ∙ from_start samples v₁.world.captured i full) in
      (
        v₃,
        path,
        ends,
        λ i j hi hj white. sym (row i hi) ∙ h₃.traced.alone i j hi hj white,
        λ i hi above.
            subst
              (λ (y : ℕ). y < 104 → (s.frame i y ≡ white_code) ⊎ ((y ≡ 0) × (s.frame i 0 ≡ 0xf800)))
              (row i hi) (h₃.traced.shown i hi) above,
      )
