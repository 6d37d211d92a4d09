-- ===== src/Controls/Marks.antt =====
-- One check of a button with any ticks in between: what it can come to.
use stm32f3_oscilloscope.Prelude.{
  ℕ, suc, ◌<◌, ◌≡◌, refl, ap, ◌∙◌, inl, inr, ◌⊎◌, false, List, [], ◌∷◌, length, length-set,
  Bool-cases, arith,
}
use stm32f3_oscilloscope.Prelude.Word.{Result, ok, >>=-of_ok, index-eq-get_or}
use stm32f3_oscilloscope.Device.{Action}
use stm32f3_oscilloscope.Interrupts.{
  Button, Shared, button_pin, poll_buttons, systick_handler, button_get_changed,
  button_reset_changed, button_get_state, ticks,
}
use stm32f3_oscilloscope.Sweep.{Scope}
use stm32f3_oscilloscope.Controls.{check_button}
use stm32f3_oscilloscope.Controls.Presses.{unread, at_button, unmarked}

poll_buttons-length :
    (idr : ℕ) (pins : List ℕ) (buttons : List Button)
    → length (poll_buttons idr pins buttons) ≡ length buttons
unfolding poll_buttons
poll_buttons-length idr [] buttons = refl
poll_buttons-length idr (pin ∷ pins) [] = refl
poll_buttons-length idr (pin ∷ pins) (b ∷ buttons) = ap suc (poll_buttons-length idr pins buttons)

pub ticks-length :
    (gap : List ℕ) (shared : Shared) → length (ticks gap shared).buttons ≡ length shared.buttons
unfolding ticks systick_handler
ticks-length [] shared = refl
ticks-length (idr ∷ later) shared =
    ticks-length later (systick_handler idr shared)
    ∙ poll_buttons-length idr button_pin shared.buttons

module _ (act : Scope → Result (Scope × List Action)) (s : Scope) where
  -- No action, or the whole one.
  abbrev pub Acts : Scope × List Action → Type 0
  Acts out = (out ≡ (s, [])) ⊎ (act s ≡ ok out)

  -- If the action returns, so does the check, and keeps the number of the buttons.
  pub check_button-Acts :
      (i : ℕ) (gap gap' : List ℕ) (shared : Shared) (out : Scope × List Action)
      → i < length shared.buttons
      → act s ≡ ok out
      → (shared' : Shared) × (out' : Scope × List Action) × (check_button i gap gap' act shared s
          ≡ ok (shared', out'.0, out'.1))
        × (length shared'.buttons ≡ length shared.buttons)
        × Acts out'
  unfolding check_button button_get_changed button_reset_changed button_get_state
  check_button-Acts i gap gap' shared out h acts =
      let read = index-eq-get_or shared.buttons i unread h in
      let waited = ticks gap shared in
      let late = ticks gap' (unmarked i waited) in
      let same : length waited.buttons ≡ length shared.buttons = ticks-length gap shared in
      let same' : length late.buttons ≡ length shared.buttons =
        ticks-length gap' (unmarked i waited)
        ∙ length-set waited.buttons i (record (at_button waited i) { changed = false })
        ∙ same in
      let reset = index-eq-get_or waited.buttons i unread (omega (arith, same)) in
      let reads = index-eq-get_or late.buttons i unread (omega (arith, same')) in
      elim (Bool-cases (at_button shared i).changed) [
        | inr unmarked ↦ (
          shared,
          (s, []),
          >>=-of_ok _ (>>=-of_ok _ read refl) (rw unmarked refl),
          refl,
          inl refl,
        )
        | inl marked ↦ elim (Bool-cases (at_button late i).state) [
          | inr released ↦ (
            late,
            (s, []),
            >>=-of_ok _ (>>=-of_ok _ read refl) (
                rw marked (
                  >>=-of_ok _ (>>=-of_ok _ reset refl)
                    (>>=-of_ok _ (>>=-of_ok _ reads refl) (rw released refl)))),
            same',
            inl refl,
          )
          | inl pressed ↦ (
            late,
            out,
            >>=-of_ok _ (>>=-of_ok _ read refl) (
                rw marked (
                  >>=-of_ok _ (>>=-of_ok _ reset refl)
                    (>>=-of_ok _ (>>=-of_ok _ reads refl) (rw pressed (>>=-of_ok _ acts refl))))),
            same',
            inr acts,
          )
        ]
      ]
