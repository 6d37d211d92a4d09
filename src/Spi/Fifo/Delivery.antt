-- ===== src/Spi/Fifo/Delivery.antt =====
-- The hardware SPI of st7735.rs as a connection to the display.
use stm32f3_oscilloscope.Prelude.{
  ℕ, ◌≡◌, refl, ap, ◌∙◌, Bool, true, false, List, [], ◌∷◌, ◌++◌, All,
}
use stm32f3_oscilloscope.Spi.{Token}
use stm32f3_oscilloscope.Spi.Link.{Link, IsByte, SendsAll, SendsAll-sent, SendsAll-total}
use stm32f3_oscilloscope.Spi.Fifo.{
  Fifo, Op, set_dc, put, await_room, await_idle, nothing, ops_of, allows, act, Exec, done, shift,
  step, sent, odr12, call,
}
use stm32f3_oscilloscope.Spi.Fifo.Careful.{unknown, careful, replay, Exec-replay}

call-careful : (t : Token) (dc : Bool) → careful unknown (ops_of (call t (odr12 dc))) ≡ true
unfolding call
call-careful (true, byte) true = refl
call-careful (true, byte) false = refl
call-careful (false, byte) true = refl
call-careful (false, byte) false = refl

call-replay :
    (t : Token) (dc : Bool) (tokens : List Token)
    → replay (ops_of (call t (odr12 dc))) (dc, tokens) ≡ (t.0, tokens ++ t ∷ [])
unfolding call
call-replay (true, byte) true tokens = refl
call-replay (true, byte) false tokens = refl
call-replay (false, byte) true tokens = refl
call-replay (false, byte) false tokens = refl

-- One call, with the shifts that happen meanwhile.
abbrev pub Sends : Token → Fifo → Fifo → Type 0
Sends t f g = Exec (ops_of (call t (odr12 f.dc))) f g

pub Sends-sent : (t : Token) (f g : Fifo) → Sends t f g → sent g ≡ sent f ++ t ∷ []
Sends-sent t f g run =
    ap (λ (v : Bool × List Token). v.1)
      (Exec-replay unknown run (call-careful t f.dc) tt ∙ call-replay t f.dc (sent f))

-- Shifting out all that the buffer holds, before the accesses.
drain :
    (queue : List ℕ) (dc : Bool) (received : List Token)
    → (received' : List Token) × ((ops : List Op) (g : Fifo)
        → Exec ops (record { dc = dc; queue = []; received = received' }) g
        → Exec ops (record { dc = dc; queue = queue; received = received }) g)
drain [] dc received = (received, λ ops g run. run)
drain (byte ∷ queue) dc received =
    let (received', later) = drain queue dc (received ++ (dc, byte) ∷ []) in
    (received', λ ops g run. shift byte queue refl (later ops g run))

allows_idle : (op : Op) → allows op [] ≡ true
allows_idle await_room = refl
allows_idle await_idle = refl
allows_idle (set_dc level) = refl
allows_idle (put byte) = refl
allows_idle nothing = refl

pub Exec-total : (ops : List Op) (f : Fifo) → (g : Fifo) × Exec ops f g
Exec-total [] f = (f, done)
Exec-total (op ∷ ops) f =
    let (received, before) = drain f.queue f.dc f.received in
    let idle : Fifo = record { dc = f.dc; queue = []; received = received } in
    let (g, run) = Exec-total ops (act op idle) in
    (g, before (op ∷ ops) g (step (allows_idle op) run))

abbrev pub fifo_link : Link
fifo_link = record {
  State = Fifo;
  IsReady = λ f. Unit {0};
  Sends = Sends;
  sent = sent;
  delivers = λ t f g byte ready run. (tt, Sends-sent t f g run);
  proceeds = λ t f byte ready. Exec-total (ops_of (call t (odr12 f.dc))) f;
}

-- With the hardware SPI, any calls of `st7735_send_cmd` and `st7735_send_data` in a row, with the
-- transmit buffer shifting at any time in between, send just their bytes in their order, each with
-- the level of A0/DC that belongs to it, and lose none; and from any state the calls can return.
pub fifo_link-sent :
    (ts : List Token) (f : Fifo)
    → All IsByte ts
    → ((g : Fifo) → SendsAll fifo_link ts f g → sent g ≡ sent f ++ ts)
      × ((g : Fifo) × SendsAll fifo_link ts f g)
fifo_link-sent ts f bytes = (
  λ g run. (SendsAll-sent fifo_link ts f g bytes tt run).1,
  SendsAll-total fifo_link ts f bytes tt,
)
