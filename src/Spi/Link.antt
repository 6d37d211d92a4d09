-- ===== src/Spi/Link.antt =====
-- What the drawing code relies on in the connection to the display: bytes arrive in order, each with
-- the level of A0/DC that its call is for.
use stm32f3_oscilloscope.Prelude.{
  ◌^◌, ◌<◌, ◌≡◌, refl, sym, ◌∙◌, List, [], ◌∷◌, ◌++◌, All, append-nil, append_assoc,
}
use stm32f3_oscilloscope.Spi.{Token}

pub record Link : Type 1 where
  pub State : Type 0
  pub IsReady : State → Type 0
  pub Sends : Token → State → State → Type 0
  pub sent : State → List Token
  pub delivers :
      (t : Token) (s s' : State)
      → t.1 < 2 ^ 8
      → IsReady s
      → Sends t s s'
      → IsReady s' × (sent s' ≡ sent s ++ t ∷ [])
  pub proceeds : (t : Token) (s : State) → t.1 < 2 ^ 8 → IsReady s → (s' : State) × Sends t s s'

abbrev pub IsByte : Token → Type 0
IsByte t = t.1 < 2 ^ 8

module _ (l : Link) where
  open l use {State, IsReady, Sends, sent, delivers, proceeds}

  -- The calls for a list of bytes, one after the other.
  abbrev pub SendsAll : List Token → State → State → Type 0
  SendsAll [] s s' = s ≡ s'
  SendsAll (t ∷ ts) s s' = (m : State) × Sends t s m × SendsAll ts m s'

  pub SendsAll-sent :
      (ts : List Token) (s s' : State)
      → All IsByte ts
      → IsReady s
      → SendsAll ts s s'
      → IsReady s' × (sent s' ≡ sent s ++ ts)
  SendsAll-sent [] s s' bytes h e = rw (← e) (h, sym (append-nil (sent s)))
  SendsAll-sent (t ∷ ts) s s' bytes h (m, first, rest) =
      let (h', now) = delivers t s m bytes.0 h first in
      let (h'', all) = SendsAll-sent ts m s' bytes.1 h' rest in
      (h'', all ∙ (rw now (append_assoc (sent s) (t ∷ []) ts)))

  pub SendsAll-total :
      (ts : List Token) (s : State) → All IsByte ts → IsReady s → (s' : State) × SendsAll ts s s'
  SendsAll-total [] s bytes h = (s, refl)
  SendsAll-total (t ∷ ts) s bytes h =
      let (m, first) = proceeds t s bytes.0 h in
      let (h', now) = delivers t s m bytes.0 h first in
      let (s', rest) = SendsAll-total ts m bytes.1 h' in (s', (m, first, rest))
