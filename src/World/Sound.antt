-- ===== src/World/Sound.antt =====
-- When the capture's DMA channel and the plotted trace agree.
use stm32f3_oscilloscope.Prelude.{
  ℕ, ◌+◌, ◌-◌, ◌^◌, ◌≤◌, ◌<◌, ◌≡◌, refl, sym, subst, ◌∙◌, ◌⊎◌, inl, inr, List, [], ◌∷◌, ◌++◌,
  length, get_or, set, All, All-get_or, get_or-set_self, get_or-set_ne, leb, leb→le, leb→lt, ==→≡,
  ==→≢, ◌==◌, if◌then◌else◌, Bool-cases, arith,
}
use stm32f3_oscilloscope.Prelude.Int.{pos}
use stm32f3_oscilloscope.Device.{Action, dma1_ccr1_en, dma1_cndtr1}
use stm32f3_oscilloscope.Lcd.{Color}
use stm32f3_oscilloscope.Lcd.Silent.{IsSilent, IsSilent-append}
use stm32f3_oscilloscope.Sweep.{SweepState, before, during, after, Scope, erase, pixel}
use stm32f3_oscilloscope.Sweep.Plot.{plotted_row, plotted_color}
use stm32f3_oscilloscope.World.{World}
use stm32f3_oscilloscope.World.Frame.{erase-IsSilent}

-- The DMA channel and the column to plot, in each state of the sweep: the channel is armed for a
-- whole buffer before the sweep, and no column is plotted ahead of the transfers.
abbrev pub Phase : SweepState → ℕ → ℕ → ℕ → Type 0
Phase before enable left x = (enable ≡ 0) × (left ≡ 160)
Phase during enable left x = (enable ≡ 1) × (x < 160) × (x + left ≤ 160)
Phase after enable left x = (enable ≡ 1) × (left ≡ 0) × (x ≡ 160)

-- A row that is remembered: one of the panel's, or 255 for none yet.
abbrev pub IsRow : ℕ → Type 0
IsRow y = (y ≤ 127) ⊎ (y ≡ 255)

pub record IsSound (w : World) : Type 0 where
  pub phase : Phase w.scope.state (w.regs dma1_ccr1_en) (w.regs dma1_cndtr1) w.scope.x_out
  pub columns : length w.scope.previous_y ≡ 160
  pub buffer : length w.captured ≡ 160
  pub conversions : All (λ raw. raw < 2 ^ 12) w.captured
  pub rows : All IsRow w.scope.previous_y
  pub plotted :
      (i : ℕ)
      → i < w.scope.x_out
      → i < 160
      → get_or w.scope.previous_y i 0 ≡ plotted_row (get_or w.captured i 0)
  pub timebase_in_table : w.scope.timebase_index < 17
  pub siggen_in_table : w.scope.siggen_freq_index < 9

-- What `IsSound` says of the channel in a known state.
pub phase_at :
    (w : World) (st : SweepState)
    → w.scope.state ≡ st
    → IsSound w
    → Phase st (w.regs dma1_ccr1_en) (w.regs dma1_cndtr1) w.scope.x_out
phase_at w st e v =
    subst (λ st. Phase st (w.regs dma1_ccr1_en) (w.regs dma1_cndtr1) w.scope.x_out) e v.phase

-- Each column remembers the row of the 12-bit conversion captured for it.
abbrev pub IsComplete : World → Type 0
IsComplete w =
    (i : ℕ)
    → i < 160
    → (get_or w.scope.previous_y i 0 ≡ plotted_row (get_or w.captured i 0))
      × (get_or w.captured i 0 < 2 ^ 12)

pub IsSound-IsComplete :
    (w : World) → IsSound w → w.scope.state ≡ after → (w.regs dma1_cndtr1 ≡ 0) × IsComplete w
IsSound-IsComplete w v e =
    let (on, empty, last) = phase_at w after e v in
    (
      empty,
      λ i h. (
        v.plotted i (omega arith) h,
        All-get_or (λ raw. raw < 2 ^ 12) w.captured i 0 v.conversions (omega (arith, v.buffer)),
      ),
    )

-- The phase after a plotted column.
pub advance :
    (st : SweepState) (enable left x : ℕ)
    → st ≡ during
    → Phase during enable left x
    → x < 160 - left
    → Phase (if leb 160 (x + 1) then after else st) enable left (x + 1)
advance st enable left x e (on, inside, behind) h = elim (Bool-cases (leb 160 (x + 1))) [
  | inl last ↦ let le = leb→le 160 (x + 1) last in rw last (on, omega arith, omega arith)
  | inr more ↦
      let lt = leb→lt 160 (x + 1) more in
      rw more (subst (λ st. Phase st enable left (x + 1)) (sym e) (on, omega arith, omega arith))
]

pub drawn-IsSilent :
    (x old row : ℕ) (c : Color) → IsSilent (erase x old ++ (pixel (pos x) (pos row) c ∷ []))
drawn-IsSilent x old row c =
    IsSilent-append (erase x old) (pixel (pos x) (pos row) c ∷ []) (erase-IsSilent x old)
      (λ r. refl)

-- The variables and the actions after plotting one column.
abbrev pub plotted_out : World → Scope × List Action
plotted_out w =
    let x = w.scope.x_out in
    let raw = get_or w.captured x 0 in
    (
      record w.scope {
        previous_y = set w.scope.previous_y x (plotted_row raw);
        x_out = x + 1;
        state = if leb 160 (x + 1) then after else w.scope.state;
      },
      erase x (get_or w.scope.previous_y x 0)
          ++ (pixel (pos x) (pos (plotted_row raw)) (plotted_color raw) ∷ []),
    )

pub next_conversion :
    (w : World) → IsSound w → w.scope.x_out < 160 → get_or w.captured w.scope.x_out 0 < 2 ^ 12
next_conversion w v inside =
    All-get_or (λ raw. raw < 2 ^ 12) w.captured w.scope.x_out 0 v.conversions
      (omega (arith, v.buffer))

-- Putting one plotted column behind the others.
pub plotted-set :
    (previous captured : List ℕ) (x : ℕ)
    → length previous ≡ 160
    → x < 160
    → ((i : ℕ) → i < x → i < 160 → get_or previous i 0 ≡ plotted_row (get_or captured i 0))
    → (i : ℕ) → i < x + 1
    → i < 160
    → get_or (set previous x (plotted_row (get_or captured x 0))) i 0
      ≡ plotted_row (get_or captured i 0)
plotted-set previous captured x size hx old i hi h = elim (Bool-cases (i == x)) [
  | inl e ↦
      let same = ==→≡ i x e in
      rw same (get_or-set_self previous x (plotted_row (get_or captured x 0)) 0 (omega arith))
  | inr e ↦
      get_or-set_ne previous x i (plotted_row (get_or captured x 0)) 0
        (λ same. ==→≢ i x e (sym same))
      ∙ old i (omega (arith, ==→≢ i x e)) h
]
