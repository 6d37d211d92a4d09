-- ===== src/Device/Safety.antt =====
-- Two rules of the reference manual that a sequence of register accesses has to keep: a peripheral
-- is accessed only while its clock is on, and the length and the addresses of a DMA channel are
-- written only while the channel is disabled.
use stm32f3_oscilloscope.Prelude.{
  ℕ, ◌≡◌, refl, Bool, true, ◌&&◌, List, [], ◌∷◌, ◌++◌, Option, none, some, ◌==◌, arith,
}
use stm32f3_oscilloscope.Device.Fields.{
  Field, dma1_ccr1_en, dma1_cndtr1, dma1_cpar1, dma1_cmar1, dma2_ccr3_en, dma2_cndtr3, dma2_cpar3,
  dma2_cmar3, dma2_ccr4_en, dma2_cndtr4, dma2_cpar4, dma2_cmar4,
}
use stm32f3_oscilloscope.Device.Owner.{owner}
use stm32f3_oscilloscope.Device.Clocks.{clock_enable}
use stm32f3_oscilloscope.Device.{Action, modify, write, await, delay_ms, lcd, Registers, apply, run}

-- The fields that an action names.
abbrev names : List (Field × ℕ) → List Field
names [] = []
names ((f, v) ∷ fs) = f ∷ names fs

abbrev pub fields : Action → List Field
fields (modify fs) = names fs
fields (write fs) = names fs
fields (await f v) = f ∷ []
fields (delay_ms n) = []
fields (lcd c) = []

abbrev every : (Field → Bool) → List Field → Bool
every p [] = true
every p (f ∷ fs) = p f && every p fs

abbrev enabled : Option Field → Registers → Bool
enabled none r = true
enabled (some f) r = r f == 1

-- Whether each action finds the clocks of its peripherals on, from the registers `r`.
abbrev pub clocked : List Action → Registers → Bool
clocked [] r = true
clocked (a ∷ later) r =
    every (λ f. enabled (clock_enable (owner f)) r) (fields a) && clocked later (apply a r)

-- The enable bit of the DMA channel that a field of its length or addresses belongs to.
abbrev channel_enable : Field → Option Field
channel_enable dma1_cndtr1 = some dma1_ccr1_en
channel_enable dma1_cpar1 = some dma1_ccr1_en
channel_enable dma1_cmar1 = some dma1_ccr1_en
channel_enable dma2_cndtr3 = some dma2_ccr3_en
channel_enable dma2_cpar3 = some dma2_ccr3_en
channel_enable dma2_cmar3 = some dma2_ccr3_en
channel_enable dma2_cndtr4 = some dma2_ccr4_en
channel_enable dma2_cpar4 = some dma2_ccr4_en
channel_enable dma2_cmar4 = some dma2_ccr4_en
channel_enable _ = none

abbrev disabled : Option Field → Registers → Bool
disabled none r = true
disabled (some f) r = r f == 0

-- Whether each access to a field finds the enable bit that guards it, if there is one, at 0.
abbrev pub guarded : (Field → Option Field) → List Action → Registers → Bool
guarded guard [] r = true
guarded guard (a ∷ later) r =
    every (λ f. disabled (guard f) r) (fields a) && guarded guard later (apply a r)

-- Whether each write to a channel's length or addresses finds the channel disabled.
abbrev pub dma_guarded : List Action → Registers → Bool
dma_guarded = guarded channel_enable

pub run-append :
    (actions bs : List Action) (r : Registers) → run (actions ++ bs) r ≡ run bs (run actions r)
run-append [] bs r = refl
run-append (a ∷ later) bs r = run-append later bs (apply a r)

pub clocked-append :
    (actions bs : List Action) (r : Registers)
    → clocked (actions ++ bs) r ≡ (clocked actions r && clocked bs (run actions r))
clocked-append [] bs r = refl
clocked-append (a ∷ later) bs r = ground (arith, clocked-append later bs (apply a r))
