-- ===== src/Prelude/Word.antt =====
-- Rust's fixed-width arithmetic: `panic` is a Rust panic, and an overflow panics in a debug build
-- and wraps in a release build.
use Prim.Native.Nat.{ℕ, ◌+◌, ◌-◌, ◌*◌, ◌/◌, ◌%◌, ◌^◌, ◌≤◌, ◌<◌}
use mathlib.Core.Path.{◌≡◌, refl}
use mathlib.Core.Bool.{Bool}
use mathlib.Core.Option.{none, some}
use mathlib.Core.List.{List}
use native.Mathlib.Omega.{arith}
use stm32f3_oscilloscope.Prelude.Tests.{ltb, leb, ◌==◌, if◌then◌else◌}
use stm32f3_oscilloscope.Prelude.Lists.{length, get_elem?, get_or, get_elem?-eq-get_or}
use stm32f3_oscilloscope.Prelude.Int.{ℤ, pos, negsuc, ◌+ℤ◌, ◌-ℤ◌, ◌*ℤ◌}

pub data Build : Type 0 where
  debug release : Build

pub data Result {ℓ} (A : Type ℓ) : Type ℓ where
  ok : A → Result A
  panic : Result A

infixl 5 ◌>>=◌
abbrev pub ◌>>=◌ {ℓ κ} : {A : Type ℓ} {B : Type κ} → Result A → (A → Result B) → Result B
ok a >>= f = f a
panic >>= f = panic

abbrev pub overflow {ℓ} : {A : Type ℓ} → Build → A → Result A
overflow debug v = panic
overflow release v = ok v

infixl 5 ◌>>◌
abbrev pub ◌>>◌ {ℓ} : {B : Type ℓ} → Result (Unit {0}) → Result B → Result B
m >> k = m >>= λ _. k

-- `debug_assert!`
abbrev pub debug_assert : Build → Bool → Result (Unit {0})
debug_assert debug b = if b then ok tt else panic
debug_assert release b = ok tt

-- `xs[i]`
abbrev pub index {ℓ} : {A : Type ℓ} → List A → ℕ → Result A
index xs i = elim (get_elem? xs i) [ none ↦ panic | some a ↦ ok a ]

-- `a / b`
abbrev pub div : ℕ → ℕ → Result ℕ
div a b = if b == 0 then panic else ok (a / b)

-- `a + b` and `a - b` at `w` bits
abbrev pub add_bits : ℕ → Build → ℕ → ℕ → Result ℕ
add_bits w b x y = if ltb (x + y) (2 ^ w) then ok (x + y) else overflow b ((x + y) % 2 ^ w)

abbrev pub sub_bits : ℕ → Build → ℕ → ℕ → Result ℕ
sub_bits w b x y = if leb y x then ok (x - y) else overflow b ((x + 2 ^ w - y) % 2 ^ w)

abbrev pub mul_bits : ℕ → Build → ℕ → ℕ → Result ℕ
mul_bits w b x y = if ltb (x * y) (2 ^ w) then ok (x * y) else overflow b (x * y % 2 ^ w)

abbrev pub add_u8 : Build → ℕ → ℕ → Result ℕ
add_u8 = add_bits 8

abbrev pub sub_u8 : Build → ℕ → ℕ → Result ℕ
sub_u8 = sub_bits 8

abbrev pub sub_u32 : Build → ℕ → ℕ → Result ℕ
sub_u32 = sub_bits 32

abbrev pub mul_u32 : Build → ℕ → ℕ → Result ℕ
mul_u32 = mul_bits 32

-- The value of a 16-bit pattern, and the pattern of a value.
abbrev pub signed16 : ℕ → ℤ
signed16 w = if ltb w (2 ^ 15) then pos w else negsuc (2 ^ 16 - w - 1)

abbrev pub pattern16 : ℤ → ℕ
pattern16 (pos n) = n % 2 ^ 16
pattern16 (negsuc n) = 2 ^ 16 - 1 - n % 2 ^ 16

abbrev pub fits_i16 : ℤ → Bool
fits_i16 (pos n) = ltb n (2 ^ 15)
fits_i16 (negsuc n) = ltb n (2 ^ 15)

abbrev pub check_i16 : Build → ℤ → Result ℤ
check_i16 b z = if fits_i16 z then ok z else overflow b (signed16 (pattern16 z))

abbrev pub add_i16 : Build → ℤ → ℤ → Result ℤ
add_i16 b x y = check_i16 b (x +ℤ y)

abbrev pub sub_i16 : Build → ℤ → ℤ → Result ℤ
sub_i16 b x y = check_i16 b (x -ℤ y)

abbrev pub mul_i16 : Build → ℤ → ℤ → Result ℤ
mul_i16 b x y = check_i16 b (x *ℤ y)

-- `z as u8`
abbrev pub as_u8 : ℤ → ℕ
as_u8 z = pattern16 z % 2 ^ 8

-- A step that succeeds, in a chain of them.
pub >>=-of_ok {ℓ κ} :
    {A : Type ℓ} {B : Type κ} {m : Result A} {a : A} (f : A → Result B) {r : Result B}
    → m ≡ ok a
    → f a ≡ r
    → (m >>= f) ≡ r
>>=-of_ok f e h = rw e h

-- The first step of a chain that succeeds, and the rest.
pub >>=-to_ok {ℓ κ} :
    {A : Type ℓ} {B : Type κ} (m : Result A) (f : A → Result B) (r : B)
    → (m >>= f) ≡ ok r
    → (a : A) × (m ≡ ok a) × (f a ≡ ok r)
>>=-to_ok (ok a) f r e = (a, refl, e)
>>=-to_ok panic f r e = absurd (ground arith)

pub index-eq-get_or {ℓ} :
    {A : Type ℓ} (xs : List A) (i : ℕ) (d : A) → i < length xs → index xs i ≡ ok (get_or xs i d)
index-eq-get_or xs i d h = rw (get_elem?-eq-get_or xs i d h, index)

pub sub_u8-ok : (b : Build) (x y : ℕ) → y ≤ x → sub_u8 b x y ≡ ok (x - y)
sub_u8-ok b x y h = ground arith

pub add_u8-ok : (b : Build) (x y : ℕ) → x + y < 2 ^ 8 → add_u8 b x y ≡ ok (x + y)
add_u8-ok b x y h = ground arith
