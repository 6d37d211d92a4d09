-- ===== src/Spi/Fifo/Careful.antt =====
-- A test on a sequence of accesses, and what a sequence that passes it sends.
use stm32f3_oscilloscope.Prelude.{
  ℕ, ◌≤◌, ◌≡◌, refl, sym, ap, ◌∙◌, Bool, true, false, List, [], ◌∷◌, ◌++◌, map, length,
  append_assoc, ltb, leb→le, ==→≡, arith,
}
use mathlib.Core.List.{map-append}
use stm32f3_oscilloscope.Spi.{Token}
use stm32f3_oscilloscope.Spi.Fifo.{
  Fifo, Op, set_dc, put, await_room, await_idle, nothing, allows, act, Exec, done, shift, step,
  sent,
}

-- What the program knows of the buffer: that there is room for a byte, or that it is empty.
pub data Known : Type 0 where
  unknown room empty : Known

abbrev pub Holds : Known → List ℕ → Type 0
Holds unknown queue = Unit {0}
Holds room queue = length queue ≤ 3
Holds empty queue = length queue ≡ 0

-- The level is only changed with the buffer empty, and a byte only written where there is room.
abbrev pub careful : Known → List Op → Bool
careful k [] = true
careful k (await_room ∷ ops) = careful (elim k [ empty ↦ empty | _ ↦ room ]) ops
careful k (await_idle ∷ ops) = careful empty ops
careful k (nothing ∷ ops) = careful k ops
careful empty (set_dc level ∷ ops) = careful empty ops
careful k (set_dc level ∷ ops) = false
careful unknown (put byte ∷ ops) = false
careful k (put byte ∷ ops) = careful unknown ops

-- The level and the bytes sent after a sequence of accesses.
abbrev pub replay : List Op → Bool × List Token → Bool × List Token
replay [] v = v
replay (set_dc level ∷ ops) (dc, tokens) = replay ops (level, tokens)
replay (put byte ∷ ops) (dc, tokens) = replay ops (dc, tokens ++ (dc, byte) ∷ [])
replay (op ∷ ops) v = replay ops v

abbrev pub view : Fifo → Bool × List Token
view f = (f.dc, sent f)

shift-sent :
    (f : Fifo) (byte : ℕ) (queue : List ℕ)
    → f.queue ≡ byte ∷ queue
    → sent (record f { queue = queue; received = f.received ++ (f.dc, byte) ∷ [] }) ≡ sent f
shift-sent f byte queue e =
    append_assoc f.received ((f.dc, byte) ∷ []) (map (λ (b : ℕ). (f.dc, b)) queue)
    ∙ ap (λ (q : List ℕ). f.received ++ map (λ (b : ℕ). (f.dc, b)) q) (sym e)

Holds-shift :
    (k : Known) (q : List ℕ) (byte : ℕ) (queue : List ℕ)
    → q ≡ byte ∷ queue
    → Holds k q
    → Holds k queue
Holds-shift unknown q byte queue e h = tt
Holds-shift room q byte queue e h = omega (arith, ap length e)
Holds-shift empty q byte queue e h = absurd (omega (arith, ap length e))

put-sent :
    (f : Fifo) (byte : ℕ)
    → length f.queue ≤ 3
    → view (act (put byte) f) ≡ (f.dc, sent f ++ (f.dc, byte) ∷ [])
put-sent f byte h =
    let fits : ltb (length f.queue) 5 ≡ true = ground arith in
    let behind : f.received ++ map (λ (b : ℕ). (f.dc, b)) (f.queue ++ byte ∷ [])
        ≡ sent f ++ (f.dc, byte) ∷ [] =
      ap (λ (ts : List Token). f.received ++ ts)
        (map-append (λ (b : ℕ). (f.dc, b)) f.queue (byte ∷ []))
      ∙ sym (append_assoc f.received (map (λ (b : ℕ). (f.dc, b)) f.queue) ((f.dc, byte) ∷ [])) in
    rw fits (ap (λ (ts : List Token). (f.dc, ts)) behind)

set_dc-sent :
    (f : Fifo) (level : Bool) → length f.queue ≡ 0 → view (act (set_dc level) f) ≡ (level, sent f)
set_dc-sent f level h = ap (λ (ts : List Token). (level, f.received ++ ts)) (idle f.queue h)
  where
    idle :
        (q : List ℕ)
        → length q ≡ 0
        → map {B = Token} (λ b. (level, b)) q ≡ map {B = Token} (λ b. (f.dc, b)) q
    idle [] h = refl
    idle (b ∷ q) h = absurd (omega arith)

-- One access: what the program knows after it, and what it sends.
step-view :
    (k : Known) (op : Op) (ops : List Op) (f : Fifo)
    → allows op f.queue ≡ true
    → careful k (op ∷ ops) ≡ true
    → Holds k f.queue
    → (k' : Known) × (careful k' ops ≡ true)
      × Holds k' (act op f).queue
      × (replay ops (view (act op f)) ≡ replay (op ∷ ops) (view f))
step-view unknown await_room ops f ok c h = (room, c, leb→le (length f.queue) 3 ok, refl)
step-view room await_room ops f ok c h = (room, c, h, refl)
step-view empty await_room ops f ok c h = (empty, c, h, refl)
step-view k await_idle ops f ok c h = (empty, c, ==→≡ (length f.queue) 0 ok, refl)
step-view k nothing ops f ok c h = (k, c, h, refl)
step-view empty (set_dc level) ops f ok c h =
    (empty, c, h, ap (λ (v : Bool × List Token). replay ops v) (set_dc-sent f level h))
step-view unknown (set_dc level) ops f ok c h = cc
step-view room (set_dc level) ops f ok c h = cc
step-view unknown (put byte) ops f ok c h = cc
step-view room (put byte) ops f ok c h =
    (unknown, c, tt, ap (λ (v : Bool × List Token). replay ops v) (put-sent f byte h))
step-view empty (put byte) ops f ok c h =
    (unknown, c, tt, ap (λ (v : Bool × List Token). replay ops v) (put-sent f byte (omega arith)))

-- Shifts between the accesses make no difference to what a careful sequence sends.
pub Exec-replay :
    {ops : List Op} {f g : Fifo} (k : Known)
    → Exec ops f g
    → careful k ops ≡ true
    → Holds k f.queue
    → view g ≡ replay ops (view f)
Exec-replay k done c h = refl
Exec-replay {ops} {f} k (shift byte queue e rest) c h =
    Exec-replay k rest c (Holds-shift k f.queue byte queue e h)
    ∙ ap (λ (v : List Token). replay ops (f.dc, v)) (shift-sent f byte queue e)
Exec-replay {f = f} k (step {op = op} {ops = ops} ok rest) c h =
    let (k', c', h', same) = step-view k op ops f ok c h in Exec-replay k' rest c' h' ∙ same
