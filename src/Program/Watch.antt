-- ===== src/Program/Watch.antt =====
-- The whole program with its display: the events of Program.antt, and what each of them shows.
use stm32f3_oscilloscope.Prelude.{ℕ, ◌<◌, ◌≡◌, sym, subst, inl, inr, List, length, arith}
use stm32f3_oscilloscope.Prelude.Word.{Build, Result, ok}
use stm32f3_oscilloscope.Device.{Action, run}
use stm32f3_oscilloscope.Lcd.{Panel, landscape}
use stm32f3_oscilloscope.Interrupts.{Shared, systick_handler, dma1ch1_interrupt_handler}
use stm32f3_oscilloscope.Sweep.{Scope, sweep}
use stm32f3_oscilloscope.Controls.{check_button, next_timebase, next_siggen_freq}
use stm32f3_oscilloscope.Controls.Marks.{Acts, check_button-Acts}
use stm32f3_oscilloscope.Screen.{Screen, Driver, show}
use stm32f3_oscilloscope.World.{World, after_actions, Hardware, other}
use stm32f3_oscilloscope.World.Frame.{next_timebase-ok, next_siggen_freq-ok}
use stm32f3_oscilloscope.World.Invariant.{ok_unique}
use stm32f3_oscilloscope.World.Picture.{Picture, after_drawing, Draw, Draws}
use stm32f3_oscilloscope.World.Picture as Drawn
use stm32f3_oscilloscope.Program.{Machine, Event, Run}
use stm32f3_oscilloscope.Program as Unseen
use stm32f3_oscilloscope.Program.Invariant.{IsRunning, Run-IsRunning, handler-Keeps}

pub record View : Type 0 where
  pub machine : Machine
  pub screen : Screen

-- What the program's actions do to the machine and to the display.
abbrev pub seen : Driver → View → Shared → Scope × List Action → View
seen d v shared out = record {
  machine = record { shared = shared; world = after_actions v.machine.world out };
  screen = show d out.1 v.screen;
}

-- The events of the program, on the display too.
pub data Watch (d : Driver) (b : Build) (p : Panel) (font : List ℕ) (v : View) : View → Type 0 where
  swept :
      (out : Scope × List Action)
      → sweep b p font v.machine.world.regs v.machine.world.captured v.machine.world.scope ≡ ok out
      → Watch d b p font v (seen d v v.machine.shared out)
  checked_1 :
      (gap gap' : List ℕ) (shared : Shared) (out : Scope × List Action)
      → check_button 0 gap gap' (next_timebase b p font) v.machine.shared v.machine.world.scope
        ≡ ok (shared, out.0, out.1)
      → Watch d b p font v (seen d v shared out)
  checked_4 :
      (gap gap' : List ℕ) (shared : Shared) (out : Scope × List Action)
      → check_button 3 gap gap' (next_siggen_freq b p font) v.machine.shared v.machine.world.scope
        ≡ ok (shared, out.0, out.1)
      → Watch d b p font v (seen d v shared out)
  tick :
      (idr : ℕ)
      → Watch d b p font v (record v {
        machine = record v.machine { shared = systick_handler idr v.machine.shared };
      })
  capture_done : Watch d b p font v (record v {
    machine = record v.machine {
      world = record v.machine.world { regs = run dma1ch1_interrupt_handler v.machine.world.regs };
    };
  })
  hardware :
      {w : World}
      → Hardware v.machine.world w
      → Watch d b p font v (record v { machine = record v.machine { world = w } })

pub data Watched (d : Driver) (b : Build) (p : Panel) (font : List ℕ) (v : View)
    : View → Type 0 where
  here : Watched d b p font v v
  next : {t u : View} → Watched d b p font v t → Watch d b p font t u → Watched d b p font v u

abbrev pub picture : View → Picture
picture v = record { world = v.machine.world; screen = v.screen }

module _ (d : Driver) (b : Build) (p : Panel) (font : List ℕ) where
  -- Without the display it is an event of the program.
  unseen : {v v' : View} → Watch d b p font v v' → Event b p font v.machine v'.machine
  unseen (swept out e) = Unseen.swept out e
  unseen (checked_1 gap gap' shared out e) = Unseen.checked_1 gap gap' shared out e
  unseen (checked_4 gap gap' shared out e) = Unseen.checked_4 gap gap' shared out e
  unseen (tick idr) = Unseen.tick idr
  unseen capture_done = Unseen.capture_done
  unseen (hardware change) = Unseen.hardware change

  pub Watched-Run : (v v' : View) → Watched d b p font v v' → Run b p font v.machine v'.machine
  Watched-Run v _ here = Unseen.here
  Watched-Run v _ (next path event) = Unseen.next (Watched-Run v _ path) (unseen event)

-- A check that returns has done nothing, or its whole action.
pub checked-Acts :
    (i : ℕ) (act : Scope → Result (Scope × List Action)) (s : Scope) (gap gap' : List ℕ)
    (shared shared' : Shared) (out done : Scope × List Action)
    → i < length shared.buttons
    → act s ≡ ok done
    → check_button i gap gap' act shared s ≡ ok (shared', out.0, out.1)
    → Acts act s out
checked-Acts i act s gap gap' shared shared' out done inside acts e =
    let (shared₁, out₁, e₁, _, which) =
      check_button-Acts act s i gap gap' shared done inside acts in
    subst (λ (end : Shared × Scope × List Action). Acts act s (end.1, end.2))
      (ok_unique _ (shared₁, out₁.0, out₁.1) (shared', out.0, out.1) e₁ e) which

module _ (d : Driver) (b : Build) (font : List ℕ) (size : length font ≡ 1536) where
  checked-Draws :
      (act : Scope → Result (Scope × List Action)) (v : Picture) (out : Scope × List Action)
      → (act v.world.scope ≡ ok out → Draw d b landscape font v (after_drawing d v out))
      → Acts act v.world.scope out
      → Draws d b landscape font v (after_drawing d v out)
  checked-Draws act v out draw (inl e) =
      subst (λ out. Draws d b landscape font v (after_drawing d v out)) (sym e) Drawn.here
  checked-Draws act v out draw (inr e) = Drawn.next Drawn.here (draw e)

  -- An event is at most one step of the loop or of the hardware.
  Watch-Draws :
      (v v' : View)
      → Watch d b landscape font v v'
      → IsRunning v.machine
      → Draws d b landscape font (picture v) (picture v')
  Watch-Draws v _ (swept out e) h = Drawn.next Drawn.here (Drawn.pass out e)
  Watch-Draws v _ (checked_1 gap gap' shared out e) h =
      let (_, sets, _, _) = next_timebase-ok b font size v.machine.world.scope in
      checked-Draws (next_timebase b landscape font) (picture v) out (Drawn.timebase out) (
        checked-Acts 0 (next_timebase b landscape font) v.machine.world.scope gap gap'
          v.machine.shared shared out _ (omega (arith, h.four)) sets e)
  Watch-Draws v _ (checked_4 gap gap' shared out e) h =
      let (_, sets, _, _) = next_siggen_freq-ok b font size v.machine.world.scope in
      checked-Draws (next_siggen_freq b landscape font) (picture v) out (Drawn.siggen out) (
        checked-Acts 3 (next_siggen_freq b landscape font) v.machine.world.scope gap gap'
          v.machine.shared shared out _ (omega (arith, h.four)) sets e)
  Watch-Draws v _ (tick idr) h = Drawn.here
  Watch-Draws v _ capture_done h =
      let r = v.machine.world.regs in
      Drawn.next Drawn.here (
        Drawn.hardware (
          other (run dma1ch1_interrupt_handler r) (handler-Keeps.enable r)
            (handler-Keeps.counter r)))
  Watch-Draws v _ (hardware change) h = Drawn.next Drawn.here (Drawn.hardware change)

  append-Draws :
      {u v w : Picture}
      → Draws d b landscape font u v
      → Draws d b landscape font v w
      → Draws d b landscape font u w
  append-Draws path Drawn.here = path
  append-Draws path (Drawn.next later step) = Drawn.next (append-Draws path later) step

  -- The program with its interrupts draws nothing that the loop and the hardware do not.
  pub Watched-Draws :
      (v v' : View)
      → Watched d b landscape font v v'
      → IsRunning v.machine
      → Draws d b landscape font (picture v) (picture v')
  Watched-Draws v _ here h = Drawn.here
  Watched-Draws v _ (next path event) h = append-Draws (Watched-Draws v _ path h) (
      Watch-Draws _ _ event
        (Run-IsRunning b font size v.machine _ (Watched-Run d b landscape font v _ path) h))
