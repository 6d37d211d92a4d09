-- ===== src/Controls/Presses.antt =====
-- What the main loop does with a marked button.
use stm32f3_oscilloscope.Prelude.{
  ℕ, ◌<◌, ◌≡◌, refl, ap, ◌∙◌, true, false, List, [], length, length-set, get_or, set,
  get_or-set_self, arith,
}
use stm32f3_oscilloscope.Prelude.Word.{Result, ok, >>=-of_ok, index-eq-get_or}
use stm32f3_oscilloscope.Device.{Action}
use stm32f3_oscilloscope.Interrupts.{
  Button, Shared, button_get_changed, button_reset_changed, button_get_state, ticks,
}
use stm32f3_oscilloscope.Sweep.{Scope}
use stm32f3_oscilloscope.Controls.{check_button}

abbrev pub unread : Button
unread = record { changed = false; state = false; debounce = 0 }

abbrev pub at_button : Shared → ℕ → Button
at_button shared i = get_or shared.buttons i unread

-- The shared state with one button's mark taken back.
abbrev pub unmarked : ℕ → Shared → Shared
unmarked i shared = record shared {
  buttons = set shared.buttons i (record (at_button shared i) { changed = false });
}

module _ (i : ℕ) (act : Scope → Result (Scope × List Action)) where
  -- Without a mark there is nothing to do, whatever ticks come.
  pub check_button-skips :
      (gap gap' : List ℕ) (shared : Shared) (s : Scope)
      → i < length shared.buttons
      → (at_button shared i).changed ≡ false
      → check_button i gap gap' act shared s ≡ ok (shared, s, [])
  unfolding check_button button_get_changed
  check_button-skips gap gap' shared s h e =
      >>=-of_ok _ (>>=-of_ok _ (index-eq-get_or shared.buttons i unread h) refl) (rw e)

  module _ (shared : Shared) (s : Scope) (h : i < length shared.buttons) where
    unmarked-at_button :
        at_button (unmarked i shared) i ≡ record (at_button shared i) { changed = false }
    unmarked-at_button =
        get_or-set_self shared.buttons i (record (at_button shared i) { changed = false }) unread h

    unmarked-length : length (unmarked i shared).buttons ≡ length shared.buttons
    unmarked-length = length-set shared.buttons i (record (at_button shared i) { changed = false })

    -- Where no tick comes between the reads of one button: it takes no action unless it is marked,
    -- and then only for a press and not for a release; either way the mark is taken back, so that
    -- the next check does nothing.
    check_button-once :
        ((at_button shared i).changed ≡ false
          → check_button i [] [] act shared s ≡ ok (shared, s, []))
        × ((at_button shared i).changed ≡ true
            → (at_button shared i).state ≡ false
            → check_button i [] [] act shared s ≡ ok (unmarked i shared, s, []))
        × ((out : Scope × List Action)
            → (at_button shared i).changed ≡ true
            → (at_button shared i).state ≡ true
            → act s ≡ ok out
            → check_button i [] [] act shared s ≡ ok (unmarked i shared, out.0, out.1))
        × ((s' : Scope)
            → check_button i [] [] act (unmarked i shared) s' ≡ ok (unmarked i shared, s', []))
    unfolding check_button button_get_changed button_reset_changed button_get_state ticks
    check_button-once =
        let read = index-eq-get_or shared.buttons i unread h in
        let inside : i < length (unmarked i shared).buttons = omega (arith, unmarked-length) in
        let late =
          index-eq-get_or (unmarked i shared).buttons i unread inside
          ∙ ap Result.ok unmarked-at_button in
        (
          check_button-skips [] [] shared s h,
          λ marked released. >>=-of_ok _ (>>=-of_ok _ read refl) (
              rw marked (
                >>=-of_ok _ (>>=-of_ok _ read refl)
                  (>>=-of_ok _ (>>=-of_ok _ late refl) (rw released)))),
          λ out marked pressed acts. >>=-of_ok _ (>>=-of_ok _ read refl) (
              rw marked (
                >>=-of_ok _ (>>=-of_ok _ read refl)
                  (>>=-of_ok _ (>>=-of_ok _ late refl) (rw pressed (>>=-of_ok _ acts refl))))),
          λ s'.
              check_button-skips [] [] (unmarked i shared) s' inside
                (ap (λ (b : Button). b.changed) unmarked-at_button),
        )
