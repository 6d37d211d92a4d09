-- ===== src/Settings/Errors.antt =====
-- Indices past the tables of main.rs.
use stm32f3_oscilloscope.Prelude.{
  ℕ, zero, suc, ◌≤◌, ◌≡◌, ◌≢◌, refl, ◌∙◌, sym, ◌↔◌, List, [], ◌∷◌, length, leb, leb→le, leb→lt,
  get_elem?, none, Bool-cases, inl, inr, arith,
}
use stm32f3_oscilloscope.Prelude.Word.{Build, Result, ok, panic, ◌>>=◌, index}
use stm32f3_oscilloscope.Lcd.{landscape}
use stm32f3_oscilloscope.Settings.{
  siggen_frequencies, timebase_intervals, set_siggen_freq_from_index,
  set_capture_timebase_from_index,
}
use stm32f3_oscilloscope.Settings.Status.{
  set_siggen_freq_from_index_lem, set_capture_timebase_from_index_lem,
}

get_elem?-past {ℓ} : {A : Type ℓ} (xs : List A) (i : ℕ) → length xs ≤ i → get_elem? xs i ≡ none
get_elem?-past [] i h = refl
get_elem?-past (x ∷ xs) zero h = absurd (omega arith)
get_elem?-past (x ∷ xs) (suc i) h = get_elem?-past xs i (omega arith)

index-past {ℓ} : {A : Type ℓ} (xs : List A) (i : ℕ) → length xs ≤ i → index xs i ≡ panic
index-past xs i h = rw (get_elem?-past xs i h, index)

ok-ne_panic {ℓ} : {A : Type ℓ} {m : Result A} (a : A) → m ≡ ok a → m ≢ panic
ok-ne_panic a e e' = ground (arith, sym e ∙ e')

bind-panic {ℓ κ} :
    {A : Type ℓ} {B : Type κ} {m : Result A} (f : A → Result B) → m ≡ panic → (m >>= f) ≡ panic
bind-panic f e = rw e refl

module _ (b : Build) (font : List ℕ) (size : length font ≡ 1536) where
  -- On the panel in landscape, with a font of 1,536 bytes and in both builds,
  -- `set_siggen_freq_from_index` and `set_capture_timebase_from_index` panic at an index past the
  -- end of their table, and at no other.
  pub settings-panic :
      (i : ℕ)
      → ((set_siggen_freq_from_index b landscape font i ≡ panic) ↔ (length siggen_frequencies ≤ i))
        × ((set_capture_timebase_from_index b landscape font i ≡ panic)
            ↔ (length timebase_intervals ≤ i))
  unfolding set_siggen_freq_from_index set_capture_timebase_from_index
  settings-panic i = (
    (
      λ e. elim (Bool-cases (leb (length siggen_frequencies) i)) [
        | inl past ↦ leb→le (length siggen_frequencies) i past
        | inr inside ↦
            let (_, returns, _, _) =
              set_siggen_freq_from_index_lem b font size i
                (leb→lt (length siggen_frequencies) i inside) in
            absurd (ok-ne_panic _ returns e)
      ],
      λ past. bind-panic _ (index-past siggen_frequencies i past),
    ),
    (
      λ e. elim (Bool-cases (leb (length timebase_intervals) i)) [
        | inl past ↦ leb→le (length timebase_intervals) i past
        | inr inside ↦
            let (_, _, returns, _, _, _, _) =
              set_capture_timebase_from_index_lem b font size i
                (leb→lt (length timebase_intervals) i inside) in
            absurd (ok-ne_panic _ returns e)
      ],
      λ past. bind-panic _ (index-past timebase_intervals i past),
    ),
  )
