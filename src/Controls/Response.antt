-- ===== src/Controls/Response.antt =====
-- From the pin of a button to its action: the SysTick handler and the check in the main loop
-- together.
use stm32f3_oscilloscope.Prelude.{
  ℕ, zero, suc, ◌<◌, ◌≡◌, refl, ap, ◌∙◌, true, false, List, [], ◌∷◌, length, length-set, get_or,
  get_or-set_self, get_or-set_ne, ◌≢◌, All, arith,
}
use stm32f3_oscilloscope.Prelude.Word.{Result, ok, >>=-of_ok, index-eq-get_or}
use stm32f3_oscilloscope.Device.{Action}
use stm32f3_oscilloscope.Interrupts.{
  Button, Shared, button_pin, is_low, poll_button, poll_buttons, systick_handler,
  button_get_changed, button_reset_changed, button_get_state, ticks,
}
use stm32f3_oscilloscope.Sweep.{Scope}
use stm32f3_oscilloscope.Controls.{check_button}
use stm32f3_oscilloscope.Controls.Marks.{ticks-length}
use stm32f3_oscilloscope.Controls.Presses.{unread, at_button, unmarked, check_button-skips}

poll_buttons-at :
    (idr : ℕ) (pins : List ℕ) (buttons : List Button) (i : ℕ)
    → i < length pins
    → i < length buttons
    → get_or (poll_buttons idr pins buttons) i unread
      ≡ poll_button (is_low idr (get_or pins i 0)) (get_or buttons i unread)
unfolding poll_buttons
poll_buttons-at idr [] buttons i hp hb = absurd (omega arith)
poll_buttons-at idr (pin ∷ pins) [] i hp hb = absurd (omega arith)
poll_buttons-at idr (pin ∷ pins) (b ∷ buttons) zero hp hb = refl
poll_buttons-at idr (pin ∷ pins) (b ∷ buttons) (suc i) hp hb =
    poll_buttons-at idr pins buttons i (omega arith) (omega arith)

-- While a button is pressed, a low pin changes neither its state nor its mark.
poll_button-held :
    (b : Button)
    → b.state ≡ true
    → ((poll_button true b).state ≡ true) × ((poll_button true b).changed ≡ b.changed)
unfolding poll_button
poll_button-held b h = ground arith

-- A released button that is not bouncing is pressed by a low pin.
poll_button-pressed :
    (b : Button)
    → b.state ≡ false
    → b.debounce ≡ 0
    → ((poll_button true b).state ≡ true) × ((poll_button true b).changed ≡ true)
unfolding poll_button
poll_button-pressed b h e = ground arith

-- The readings of the input register in which the pin of button `i` is low.
abbrev pub Low : ℕ → List ℕ → Type 0
Low i readings = All (λ idr. is_low idr (get_or button_pin i 0) ≡ true) readings

-- What a check of button `i` leaves of a mark, with the ticks of `gap` before the reset and those of
-- `gap'` behind it.
abbrev pub checked : ℕ → List ℕ → List ℕ → Shared → Shared
checked i gap gap' shared = ticks gap' (unmarked i (ticks gap shared))

module _ (i : ℕ) (inside : i < 4) where
  tick-at :
      (idr : ℕ) (shared : Shared)
      → length shared.buttons ≡ 4
      → is_low idr (get_or button_pin i 0) ≡ true
      → at_button (systick_handler idr shared) i ≡ poll_button true (at_button shared i)
  unfolding systick_handler
  tick-at idr shared four low =
      poll_buttons-at idr button_pin shared.buttons i inside (omega (arith, four))
      ∙ ap (λ level. poll_button level (at_button shared i)) low

  pub ticks-held :
      (gap : List ℕ) (shared : Shared)
      → length shared.buttons ≡ 4
      → Low i gap
      → (at_button shared i).state ≡ true
      → ((at_button (ticks gap shared) i).state ≡ true)
        × ((at_button (ticks gap shared) i).changed ≡ (at_button shared i).changed)
  unfolding ticks
  ticks-held [] shared four low pressed = (pressed, refl)
  ticks-held (idr ∷ gap) shared four (low, lows) pressed =
      let now = tick-at idr shared four low in
      let (state, mark) = poll_button-held (at_button shared i) pressed in
      let (state', mark') =
        ticks-held gap (systick_handler idr shared) (ticks-length (idr ∷ []) shared ∙ four) lows
          (ap (λ (b : Button). b.state) now ∙ state) in
      (state', mark' ∙ ap (λ (b : Button). b.changed) now ∙ mark)

  -- A released button that is not bouncing is pressed and marked once a tick reads its pin low, as
  -- long as every tick after it does.
  pub ticks-pressed :
      (shared : Shared) (idr : ℕ) (held : List ℕ)
      → length shared.buttons ≡ 4
      → (at_button shared i).state ≡ false
      → (at_button shared i).debounce ≡ 0
      → Low i (idr ∷ held)
      → (length (ticks (idr ∷ held) shared).buttons ≡ 4)
        × ((at_button (ticks (idr ∷ held) shared) i).state ≡ true)
        × ((at_button (ticks (idr ∷ held) shared) i).changed ≡ true)
  unfolding ticks
  ticks-pressed shared idr held four released quiet lows =
      let now = tick-at idr shared four lows.0 in
      let (state, mark) = poll_button-pressed (at_button shared i) released quiet in
      let pressed = systick_handler idr shared in
      let four' : length pressed.buttons ≡ 4 = ticks-length (idr ∷ []) shared ∙ four in
      let (state', mark') =
        ticks-held held pressed four' lows.1 (ap (λ (b : Button). b.state) now ∙ state) in
      (ticks-length held pressed ∙ four', state', mark' ∙ ap (λ (b : Button). b.changed) now ∙ mark)

  module _ (act : Scope → Result (Scope × List Action)) (s : Scope) where
    -- A marked button that stays pressed has its action run, and its mark taken back.
    pub check_button-held :
        (gap gap' : List ℕ) (shared : Shared) (out : Scope × List Action)
        → length shared.buttons ≡ 4
        → Low i gap
        → Low i gap'
        → (at_button shared i).state ≡ true
        → (at_button shared i).changed ≡ true
        → act s ≡ ok out
        → let shared' = checked i gap gap' shared in
          (check_button i gap gap' act shared s ≡ ok (shared', out.0, out.1))
          × (length shared'.buttons ≡ 4)
          × ((at_button shared' i).state ≡ true)
          × ((at_button shared' i).changed ≡ false)
    unfolding check_button button_get_changed button_reset_changed button_get_state
    check_button-held gap gap' shared out four lows lows' pressed marked acts =
        let waited = ticks gap shared in
        let (state, _) = ticks-held gap shared four lows pressed in
        let four₁ : length waited.buttons ≡ 4 = ticks-length gap shared ∙ four in
        let reset = unmarked i waited in
        let four₂ : length reset.buttons ≡ 4 =
          length-set waited.buttons i (record (at_button waited i) { changed = false }) ∙ four₁ in
        let now : at_button reset i ≡ record (at_button waited i) { changed = false } =
          get_or-set_self waited.buttons i (record (at_button waited i) { changed = false }) unread
            (omega (arith, four₁)) in
        let (state', mark') =
          ticks-held gap' reset four₂ lows' (ap (λ (b : Button). b.state) now ∙ state) in
        let late = ticks gap' reset in
        let four₃ : length late.buttons ≡ 4 = ticks-length gap' reset ∙ four₂ in
        let first = index-eq-get_or shared.buttons i unread (omega (arith, four)) in
        let second = index-eq-get_or waited.buttons i unread (omega (arith, four₁)) in
        let third = index-eq-get_or late.buttons i unread (omega (arith, four₃)) in
        (
          >>=-of_ok _ (>>=-of_ok _ first refl) (
              rw marked (
                >>=-of_ok _ (>>=-of_ok _ second refl)
                  (>>=-of_ok _ (>>=-of_ok _ third refl) (rw state' (>>=-of_ok _ acts refl))))),
          four₃,
          state',
          mark' ∙ ap (λ (b : Button). b.changed) now,
        )

    -- Of the four buttons one is released and its debounce counter has run out. Once a tick reads
    -- its pin low, and as long as every tick after it does, also those in the middle of a check:
    -- the next check of the button runs its action, once, and a check after any number of further
    -- ticks does nothing.
    pub check_button-responds :
        (shared : Shared) (idr : ℕ) (held gap gap' held' : List ℕ) (out : Scope × List Action)
        → length shared.buttons ≡ 4
        → (at_button shared i).state ≡ false
        → (at_button shared i).debounce ≡ 0
        → Low i (idr ∷ held)
        → Low i gap
        → Low i gap'
        → Low i held'
        → act s ≡ ok out
        → (shared' : Shared) × (check_button i gap gap' act (ticks (idr ∷ held) shared) s
            ≡ ok (shared', out.0, out.1))
          × ((g g' : List ℕ) (s' : Scope)
              → check_button i g g' act (ticks held' shared') s' ≡ ok (ticks held' shared', s', []))
    check_button-responds shared idr held gap gap' held' out four released quiet lows low low' low''
          acts =
        let (four₁, state, mark) = ticks-pressed shared idr held four released quiet lows in
        let pressed = ticks (idr ∷ held) shared in
        let shared' = checked i gap gap' pressed in
        let (checks, four', state', mark') =
          check_button-held gap gap' pressed out four₁ low low' state mark acts in
        let (_, mark'') = ticks-held held' shared' four' low'' state' in
        (
          shared',
          checks,
          λ g g' s'.
              check_button-skips i act g g' (ticks held' shared') s'
                (omega (arith, ticks-length held' shared', four')) (mark'' ∙ mark'),
        )

-- A check of one button takes no mark from another one that stays pressed.
pub checked-apart :
    (i j : ℕ) (gap gap' : List ℕ) (shared : Shared)
    → i ≢ j
    → j < 4
    → length shared.buttons ≡ 4
    → Low j gap
    → Low j gap'
    → (at_button shared j).state ≡ true
    → ((at_button (checked i gap gap' shared) j).state ≡ true)
      × ((at_button (checked i gap gap' shared) j).changed ≡ (at_button shared j).changed)
checked-apart i j gap gap' shared apart inside four low low' pressed =
    let waited = ticks gap shared in
    let (state, mark) = ticks-held j inside gap shared four low pressed in
    let reset = record (at_button waited i) { changed = false } in
    let same : at_button (unmarked i waited) j ≡ at_button waited j =
      get_or-set_ne waited.buttons i j reset unread apart in
    let four' : length (unmarked i waited).buttons ≡ 4 =
      length-set waited.buttons i reset ∙ ticks-length gap shared ∙ four in
    let (state', mark') =
      ticks-held j inside gap' (unmarked i waited) four' low'
        (ap (λ (b : Button). b.state) same ∙ state) in
    (state', mark' ∙ ap (λ (b : Button). b.changed) same ∙ mark)
