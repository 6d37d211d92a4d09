-- ===== src/Led/Laws.antt =====
-- What the LED functions do to the bits of the port's registers.
use stm32f3_oscilloscope.Prelude.{
  ℕ, ◌+◌, ◌-◌, ◌*◌, ◌^◌, ◌≤◌, ◌<◌, ◌≡◌, refl, inl, inr, Bool, true, false, ◌||◌, ◌==◌,
  if◌then◌else◌, bit_and, arith, ==→≡, ==→≢, Bool-cases, ltb, ltb→lt,
}
use stm32f3_oscilloscope.Prelude.Bits.{
  bit, complement, bit-bit_and, bit-bit_or, bit-le-one, bit-zero, bit_and-le, bit_ext, all_pairs,
  all_pairs_sound, all_below, all_below_sound,
}
use stm32f3_oscilloscope.Device.{Registers, run, gpioe_moder}
use stm32f3_oscilloscope.Led.{Led, pin_of, led_mode, led_init, led_set, led_toggle}
use stm32f3_oscilloscope.Led.Port.{Gpio, drive}

abbrev mask_bit : ℕ → ℕ → ℕ
mask_bit p i = if i == 2 * p || i == 2 * p + 1 then 0 else 1

abbrev mask_ok : ℕ → ℕ → Bool
mask_ok p i = bit (complement 32 (3 * 2 ^ (p * 2))) i == mask_bit p i

mask_table : all_pairs 16 32 mask_ok ≡ true
mask_table = refl

bit-mask : (p i : ℕ) → p < 16 → i < 32 → bit (complement 32 (3 * 2 ^ (p * 2))) i ≡ mask_bit p i
bit-mask p i hp hi =
    ==→≡ (bit (complement 32 (3 * 2 ^ (p * 2))) i) (mask_bit p i)
      (all_pairs_sound 16 32 mask_ok p i mask_table hp hi)

abbrev pow_ok : ℕ → ℕ → Bool
pow_ok p i = bit (2 ^ p) i == (if i == p then 1 else 0)

pow_table : all_pairs 32 32 pow_ok ≡ true
pow_table = refl

pow_bound_table : all_below 32 (λ p. ltb (2 ^ p) (2 ^ 32)) ≡ true
pow_bound_table = refl

pow-lt : (p : ℕ) → p < 32 → 2 ^ p < 2 ^ 32
pow-lt p h =
    ltb→lt (2 ^ p) (2 ^ 32) (all_below_sound 32 (λ p. ltb (2 ^ p) (2 ^ 32)) p pow_bound_table h)

bit-pow : (p i : ℕ) → p < 32 → i < 32 → bit (2 ^ p) i ≡ (if i == p then 1 else 0)
bit-pow p i hp hi =
    ==→≡ (bit (2 ^ p) i) (if i == p then 1 else 0)
      (all_pairs_sound 32 32 pow_ok p i pow_table hp hi)

pin_of_bounds : (led : Led) → (8 ≤ pin_of led) × (pin_of led ≤ 15)
pin_of_bounds led = ground arith

bit-led_mode :
    (pin moder i : ℕ)
    → pin < 16
    → i < 32
    → bit (led_mode pin moder) i
      ≡ (if i == 2 * pin then 1 else if i == 2 * pin + 1 then 0 else bit moder i)
unfolding led_mode
bit-led_mode pin moder i hp hi =
    let mask = complement 32 (3 * 2 ^ (pin * 2)) in
    ground (
      arith,
      bit-bit_or (bit_and moder mask) (2 ^ (pin * 2)) i,
      bit-bit_and moder mask i,
      bit-mask pin i hp hi,
      bit-pow (pin * 2) i,
      bit-le-one moder i,
    )

led_init-led_mode :
    (led : Led) (moder : ℕ) (r : Registers)
    → run (led_init led moder) r gpioe_moder ≡ led_mode (pin_of led) moder
unfolding led_init
led_init-led_mode Led.ld4 moder r = refl
led_init-led_mode _ moder r = refl

-- The mode register after `led_init`: the two bits of the LED's pin read 01, which makes the pin
-- an output, and every other bit is as before.
led_init-moder :
    (led : Led) (r : Registers) (i : ℕ)
    → i < 32
    → bit (run (led_init led (r gpioe_moder)) r gpioe_moder) i ≡ (
        if i == 2 * pin_of led
        then 1
        else if i == 2 * pin_of led + 1
        then 0
        else bit (r gpioe_moder) i)
led_init-moder led r i h =
    rw (led_init-led_mode led (r gpioe_moder) r)
      (bit-led_mode (pin_of led) (r gpioe_moder) i (omega (arith, pin_of_bounds led)) h)

-- Testing one bit of a number by `&` tells whether the bit is set.
bit_and-pow : (n p : ℕ) → p < 32 → (bit_and n (2 ^ p) == 0) ≡ (bit n p == 0)
bit_and-pow n p h = elim (Bool-cases (bit_and n (2 ^ p) == 0)) [
  | inl e ↦
      let z : bit_and n (2 ^ p) ≡ 0 = ==→≡ (bit_and n (2 ^ p)) 0 e in
      let b : bit 0 p ≡ bit (bit_and n (2 ^ p)) p = rw z in
      ground (arith, b, bit-zero p, bit-bit_and n (2 ^ p) p, bit-pow p p h h)
  | inr e ↦ ground (arith, absent, ==→≢ (bit_and n (2 ^ p)) 0 e)
]
  where
    same : bit n p ≡ 0 → (i : ℕ) → i < 32 → bit (bit_and n (2 ^ p)) i ≡ bit 0 i
    same z i hi = ground (arith, bit-bit_and n (2 ^ p) i, bit-pow p i h hi, bit-zero i)

    pow_table_bound : 2 ^ p < 2 ^ 32
    pow_table_bound = pow-lt p h

    absent : bit n p ≡ 0 → bit_and n (2 ^ p) ≡ 0
    absent z =
        bit_ext 32 (bit_and n (2 ^ p)) 0 (omega (arith, bit_and-le n (2 ^ p), pow_table_bound))
          (omega arith) (same z)

module _ (g : Gpio) where
  open g use {Port, odr, bsrr, bsrr_bit}

  set-odr :
      (pin i : ℕ) (p : Port)
      → pin < 16
      → i < 16
      → bit (odr (bsrr (2 ^ pin) p)) i ≡ (if i == pin then 1 else bit (odr p) i)
  set-odr pin i p hp hi = ground (
    arith,
    bsrr_bit (2 ^ pin) i p hi,
    bit-pow pin i (omega arith) (omega arith),
    bit-pow pin (i + 16) (omega arith) (omega arith),
  )

  reset-odr :
      (pin i : ℕ) (p : Port)
      → pin < 16
      → i < 16
      → bit (odr (bsrr (2 ^ (pin + 16)) p)) i ≡ (if i == pin then 0 else bit (odr p) i)
  reset-odr pin i p hp hi = ground (
    arith,
    bsrr_bit (2 ^ (pin + 16)) i p hi,
    bit-pow (pin + 16) i (omega arith) (omega arith),
    bit-pow (pin + 16) (i + 16) (omega arith) (omega arith),
  )

  drive-set :
      (led : Led) (p : Port)
      → (drive g (led_set led true) p ≡ bsrr (2 ^ pin_of led) p)
        × (drive g (led_set led false) p ≡ bsrr (2 ^ (pin_of led + 16)) p)
  unfolding led_set
  drive-set Led.ld4 p = (refl, refl)
  drive-set _ p = (refl, refl)

  -- `led_set` gives the LED's pin the state, and leaves the port's other outputs alone.
  pub led_set-odr :
      (led : Led) (state : Bool) (p : Port) (i : ℕ)
      → i < 16
      → bit (odr (drive g (led_set led state) p)) i
        ≡ (if i == pin_of led then (if state then 1 else 0) else bit (odr p) i)
  led_set-odr led true p i h =
      rw ((drive-set led p).0) (set-odr (pin_of led) i p (omega (arith, pin_of_bounds led)) h)
  led_set-odr led false p i h =
      rw ((drive-set led p).1) (reset-odr (pin_of led) i p (omega (arith, pin_of_bounds led)) h)

  toggle-set :
      (led : Led) (odr_read : ℕ)
      → led_toggle led odr_read ≡ led_set led (bit_and odr_read (2 ^ pin_of led) == 0)
  unfolding led_toggle led_set
  toggle-set Led.ld4 odr_read = refl
  toggle-set _ odr_read = refl

  -- `led_toggle` inverts the output of the LED's pin, and leaves the port's other outputs alone.
  pub led_toggle-odr :
      (led : Led) (p : Port) (i : ℕ)
      → i < 16
      → bit (odr (drive g (led_toggle led (odr p)) p)) i
        ≡ (if i == pin_of led then 1 - bit (odr p) i else bit (odr p) i)
  led_toggle-odr led p i h =
      rw (toggle-set led (odr p), bit_and-pow (odr p) (pin_of led) pin_fits, led_set-odr)
        (ground (arith, bit-le-one (odr p) i))
    where
      pin_fits : pin_of led < 32
      pin_fits = omega (arith, pin_of_bounds led)
