-- ===== src/Program/Linked.antt =====
-- The whole program with the connection to its display: the events of Program.antt, and the bytes
-- that each of them sends.
use stm32f3_oscilloscope.Prelude.{ℕ, ◌≡◌, sym, subst, false, inl, inr, List, length, arith}
use stm32f3_oscilloscope.Prelude.Word.{Build, Result, ok}
use stm32f3_oscilloscope.Device.{Action, run}
use stm32f3_oscilloscope.Lcd.{Panel, landscape}
use stm32f3_oscilloscope.Interrupts.{Shared, systick_handler, dma1ch1_interrupt_handler}
use stm32f3_oscilloscope.Sweep.{Scope, sweep}
use stm32f3_oscilloscope.Controls.{check_button, next_timebase, next_siggen_freq}
use stm32f3_oscilloscope.Controls.Marks.{Acts}
use stm32f3_oscilloscope.Screen.{Screen}
use stm32f3_oscilloscope.Screen.Controller.{Controller, Protocol, driver_of, sent_by}
use stm32f3_oscilloscope.Screen.Controller.Order.{IsOrderly}
use stm32f3_oscilloscope.Screen.Controller.Arrival.{arrived, SendsAll-shows}
use stm32f3_oscilloscope.Spi.Link.{Link, SendsAll}
use stm32f3_oscilloscope.World.{World, after_actions, Hardware}
use stm32f3_oscilloscope.World.Frame.{next_timebase-ok, next_siggen_freq-ok}
use stm32f3_oscilloscope.World.Invariant.{ok_unique}
use stm32f3_oscilloscope.World.Picture.Invariant.{sweep-IsOrderly}
use stm32f3_oscilloscope.Program.{Machine}
use stm32f3_oscilloscope.Program.Invariant.{IsRunning, Run-IsRunning}
use stm32f3_oscilloscope.Program.Watch.{
  View, seen, Watch, Watched, Watched-Run, here, next, checked-Acts,
}
use stm32f3_oscilloscope.Program.Watch as Seen

pub record Station (l : Link) : Type 0 where
  pub machine : Machine
  pub line : l.State

module _ (l : Link) (p : Protocol) (b : Build) (panel : Panel) (font : List ℕ) where
  -- The program's actions, with their bytes over the connection.
  abbrev pub acted : Station l → Shared → Scope × List Action → l.State → Station l
  acted v shared out line = record {
    machine = record { shared = shared; world = after_actions v.machine.world out };
    line = line;
  }

  pub data Sent (v : Station l) : Station l → Type 0 where
    swept :
        (out : Scope × List Action) (line : l.State)
        → sweep b panel font v.machine.world.regs v.machine.world.captured v.machine.world.scope
          ≡ ok out
        → SendsAll l (sent_by p out.1) v.line line
        → Sent v (acted v v.machine.shared out line)
    checked_1 :
        (gap gap' : List ℕ) (shared : Shared) (out : Scope × List Action) (line : l.State)
        → check_button 0 gap gap'
            (next_timebase b panel font)
            v.machine.shared
            v.machine.world.scope
          ≡ ok (shared, out.0, out.1)
        → SendsAll l (sent_by p out.1) v.line line
        → Sent v (acted v shared out line)
    checked_4 :
        (gap gap' : List ℕ) (shared : Shared) (out : Scope × List Action) (line : l.State)
        → check_button 3 gap gap'
            (next_siggen_freq b panel font)
            v.machine.shared
            v.machine.world.scope
          ≡ ok (shared, out.0, out.1)
        → SendsAll l (sent_by p out.1) v.line line
        → Sent v (acted v shared out line)
    tick :
        (idr : ℕ)
        → Sent v (record v {
          machine = record v.machine { shared = systick_handler idr v.machine.shared };
        })
    capture_done : Sent v (record v {
      machine = record v.machine {
        world = record v.machine.world {
          regs = run dma1ch1_interrupt_handler v.machine.world.regs;
        };
      };
    })
    hardware :
        {w : World}
        → Hardware v.machine.world w
        → Sent v (record v { machine = record v.machine { world = w } })

  pub data Linked (v : Station l) : Station l → Type 0 where
    stay : Linked v v
    onward : {t u : Station l} → Linked v t → Sent t u → Linked v u

module _ (l : Link) (begin : Controller) where
  -- The machine, and what the display shows once all bytes sent so far have arrived.
  abbrev pub view : Station l → View
  view v = record { machine = v.machine; screen = (arrived l begin v.line).screen }

module _ (b : Build) (font : List ℕ) (size : length font ≡ 1536) where
  -- A check sends nothing, or what its action sends.
  checked-IsOrderly :
      (act : Scope → Result (Scope × List Action)) (s : Scope) (out done : Scope × List Action)
      → act s ≡ ok done
      → IsOrderly false done.1
      → Acts act s out
      → IsOrderly false out.1
  checked-IsOrderly act s out done acts orderly (inl e) = rw e tt
  checked-IsOrderly act s out done acts orderly (inr e) =
      subst (λ (out : Scope × List Action). IsOrderly false out.1) (ok_unique _ done out acts e)
        orderly

  pub first_check-IsOrderly :
      (m : Machine) (gap gap' : List ℕ) (shared : Shared) (out : Scope × List Action)
      → IsRunning m
      → check_button 0 gap gap' (next_timebase b landscape font) m.shared m.world.scope
        ≡ ok (shared, out.0, out.1)
      → IsOrderly false out.1
  first_check-IsOrderly m gap gap' shared out h e =
      let act = next_timebase b landscape font in
      let (actions, sets, _, marginal) = next_timebase-ok b font size m.world.scope in
      checked-IsOrderly act m.world.scope out _ sets marginal.orderly (
        checked-Acts 0 act m.world.scope gap gap' m.shared shared out _ (omega (arith, h.four)) sets
          e)

  pub second_check-IsOrderly :
      (m : Machine) (gap gap' : List ℕ) (shared : Shared) (out : Scope × List Action)
      → IsRunning m
      → check_button 3 gap gap' (next_siggen_freq b landscape font) m.shared m.world.scope
        ≡ ok (shared, out.0, out.1)
      → IsOrderly false out.1
  second_check-IsOrderly m gap gap' shared out h e =
      let act = next_siggen_freq b landscape font in
      let (actions, sets, _, marginal) = next_siggen_freq-ok b font size m.world.scope in
      checked-IsOrderly act m.world.scope out _ sets marginal.orderly (
        checked-Acts 3 act m.world.scope gap gap' m.shared shared out _ (omega (arith, h.four)) sets
          e)

module _ (l : Link) (p : Protocol) (b : Build) (font : List ℕ) (begin : Controller)
    (size : length font ≡ 1536) where
  -- A step on the display, with what holds of the connection behind it.
  abbrev Arrives : Station l → Station l → Type 0
  Arrives v v' =
      l.IsReady v'.line × Watched (driver_of p) b landscape font (view l begin v) (view l begin v')

  acted-Arrives :
      (v : Station l) (shared : Shared) (out : Scope × List Action) (line : l.State)
      → Watch
          (driver_of p)
          b
          landscape
          font
          (view l begin v)
          (seen (driver_of p) (view l begin v) shared out)
      → IsOrderly false out.1
      → l.IsReady v.line
      → SendsAll l (sent_by p out.1) v.line line
      → Arrives v (acted l p b landscape font v shared out line)
  acted-Arrives v shared out line event orderly ready sends =
      let (ready', shown) = SendsAll-shows p l begin out.1 v.line line orderly ready sends in
      let machine : Machine = record {
        shared = shared;
        world = after_actions v.machine.world out;
      } in
      (
        ready',
        subst
            (λ (s : Screen).
              Watched (driver_of p) b landscape font (view l begin v)
                (record { machine = machine; screen = s }))
            (sym shown) (next here event),
      )

  Sent-Arrives :
      (v v' : Station l)
      → Sent l p b landscape font v v'
      → IsRunning v.machine
      → l.IsReady v.line
      → Arrives v v'
  Sent-Arrives v _ (swept out line e sends) h ready =
      acted-Arrives v v.machine.shared out line (Seen.swept out e)
        (sweep-IsOrderly b font size v.machine.world out h.sound e) ready sends
  Sent-Arrives v _ (checked_1 gap gap' shared out line e sends) h ready =
      acted-Arrives v shared out line (Seen.checked_1 gap gap' shared out e)
        (first_check-IsOrderly b font size v.machine gap gap' shared out h e) ready sends
  Sent-Arrives v _ (checked_4 gap gap' shared out line e sends) h ready =
      acted-Arrives v shared out line (Seen.checked_4 gap gap' shared out e)
        (second_check-IsOrderly b font size v.machine gap gap' shared out h e) ready sends
  Sent-Arrives v _ (tick idr) h ready = (ready, next here (Seen.tick idr))
  Sent-Arrives v _ capture_done h ready = (ready, next here Seen.capture_done)
  Sent-Arrives v _ (hardware change) h ready = (ready, next here (Seen.hardware change))

  append-Watched :
      {u v w : View}
      → Watched (driver_of p) b landscape font u v
      → Watched (driver_of p) b landscape font v w
      → Watched (driver_of p) b landscape font u w
  append-Watched path here = path
  append-Watched path (next later event) = next (append-Watched path later) event

  pub Linked-Arrives :
      (v v' : Station l)
      → Linked l p b landscape font v v'
      → IsRunning v.machine
      → l.IsReady v.line
      → Arrives v v'
  Linked-Arrives v _ stay h ready = (ready, here)
  Linked-Arrives v _ (onward path event) h ready =
      let (ready', watched) = Linked-Arrives v _ path h ready in
      let running =
        Run-IsRunning b font size v.machine _
          (Watched-Run (driver_of p) b landscape font _ _ watched) h in
      let (ready'', last) = Sent-Arrives _ _ event running ready' in
      (ready'', append-Watched watched last)
