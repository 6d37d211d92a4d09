-- ===== src/Prelude/Bits.antt =====
-- The bits of a number, and those of `&`, `|`, `!` and `<<`.
use Prim.Native.Nat.{ℕ, zero, suc, ◌+◌, ◌-◌, ◌*◌, ◌/◌, ◌%◌, ◌^◌, ◌≤◌, ◌<◌, min, max}
use Prim.Native.Nat.{bit_and, bit_or, digits, bit_and-bitwise, bit_or-bitwise}
use mathlib.Core.Path.{◌≡◌, refl, ◌∙◌}
use mathlib.Core.Bool.{Bool, true, ◌&&◌}
use native.Mathlib.Omega.{arith}
use native.Mathlib.Nat.{pow-suc}
use native.Mathlib.Numerals.{add-one}

-- Bit `i` of `n`, as 0 or 1: by halving, so that a proof goes by induction on `i`.
abbrev pub bit : ℕ → ℕ → ℕ
bit n zero = n % 2
bit n (suc i) = bit (n / 2) i

-- Two fuels that both reach the end of `a` give the same digits.
module _ (f : ℕ → ℕ → ℕ) (end : ℕ → ℕ) where
  enough : (n m a b : ℕ) → a ≤ n → a ≤ m → digits end f n a b ≡ digits end f m a b
  enough zero zero a b hn hm = refl
  enough zero (suc m) zero b hn hm = refl
  enough zero (suc m) (suc a) b hn hm = absurd (omega arith)
  enough (suc n) zero zero b hn hm = refl
  enough (suc n) zero (suc a) b hn hm = absurd (omega arith)
  enough (suc n) (suc m) zero b hn hm = refl
  enough (suc n) (suc m) (suc a) b hn hm =
      rw (enough n m (suc a / 2) (b / 2) (omega arith) (omega arith))

  halve :
      (a b : ℕ)
      → digits end f (suc a) (suc a) b
        ≡ digits end f (suc a / 2) (suc a / 2) (b / 2) * 2 + f (suc a % 2) (b % 2)
  halve a b = omega (arith, enough a (suc a / 2) (suc a / 2) (b / 2) (omega arith) (omega arith))

pub bit_and-halve : (a b : ℕ) → bit_and a b ≡ bit_and (a / 2) (b / 2) * 2 + min (a % 2) (b % 2)
bit_and-halve zero b = simp bit_and-bitwise (omega arith)
bit_and-halve (suc a) b = simp bit_and-bitwise (halve min (λ _. 0) a b)

pub bit_or-halve : (a b : ℕ) → bit_or a b ≡ bit_or (a / 2) (b / 2) * 2 + max (a % 2) (b % 2)
bit_or-halve zero b = simp bit_or-bitwise (omega arith)
bit_or-halve (suc a) b = simp bit_or-bitwise (halve max (λ y. y) a b)

pub bit-bit_and : (a b i : ℕ) → bit (bit_and a b) i ≡ min (bit a i) (bit b i)
bit-bit_and a b zero = omega (arith, bit_and-halve a b)
bit-bit_and a b (suc i) =
    let half : bit_and a b / 2 ≡ bit_and (a / 2) (b / 2) = omega (arith, bit_and-halve a b) in
    rw half (bit-bit_and (a / 2) (b / 2) i)

pub bit-bit_or : (a b i : ℕ) → bit (bit_or a b) i ≡ max (bit a i) (bit b i)
bit-bit_or a b zero = omega (arith, bit_or-halve a b)
bit-bit_or a b (suc i) =
    let half : bit_or a b / 2 ≡ bit_or (a / 2) (b / 2) = omega (arith, bit_or-halve a b) in
    rw half (bit-bit_or (a / 2) (b / 2) i)

pub bit-le-one : (n i : ℕ) → bit n i ≤ 1
bit-le-one n zero = omega arith
bit-le-one n (suc i) = bit-le-one (n / 2) i

-- `!n` at `k` bits, for a number that fits.
abbrev pub complement : ℕ → ℕ → ℕ
complement k n = 2 ^ k - 1 - n

pub bit-complement : (k n i : ℕ) → n < 2 ^ k → i < k → bit (complement k n) i ≡ 1 - bit n i
bit-complement zero n i h lt = absurd (omega arith)
bit-complement (suc k) n zero h lt = omega (arith, pow-suc 2 k)
bit-complement (suc k) n (suc i) h lt =
    let half : complement (suc k) n / 2 ≡ complement k (n / 2) = omega (arith, pow-suc 2 k) in
    rw half (bit-complement k (n / 2) i (omega (arith, pow-suc 2 k)) (omega arith))

-- Numbers below `2 ^ k` with the same `k` bits are equal.
pub bit_ext : (k a b : ℕ) → a < 2 ^ k → b < 2 ^ k → ((i : ℕ) → i < k → bit a i ≡ bit b i) → a ≡ b
bit_ext zero a b ha hb same = omega arith
bit_ext (suc k) a b ha hb same =
    let high : a / 2 ≡ b / 2 =
      bit_ext k (a / 2) (b / 2) (omega (arith, pow-suc 2 k)) (omega (arith, pow-suc 2 k))
        (λ i h. same (suc i) (omega arith)) in
    omega (arith, same 0 (omega arith))

-- A predicate checked at every number below a bound.
abbrev pub all_below : ℕ → (ℕ → Bool) → Bool
all_below zero p = true
all_below (suc n) p = p n && all_below n p

pub all_below_sound : (n : ℕ) (p : ℕ → Bool) (x : ℕ) → all_below n p ≡ true → x < n → p x ≡ true
all_below_sound zero p x h lt = absurd (omega arith)
all_below_sound (suc n) p x h lt = ground (arith, all_below_sound n p x)

pub bit-zero : (i : ℕ) → bit 0 i ≡ 0
bit-zero zero = refl
bit-zero (suc i) = bit-zero i

bit_and-le_fuel : (n a b : ℕ) → a ≤ n → bit_and a b ≤ b
bit_and-le_fuel n zero b h = omega (arith, bit_and-bitwise 0 b)
bit_and-le_fuel zero (suc a) b h = absurd (omega arith)
bit_and-le_fuel (suc n) (suc a) b h =
    omega (arith, bit_and-halve (suc a) b, bit_and-le_fuel n (suc a / 2) (b / 2) (omega arith))

pub bit_and-le : (a b : ℕ) → bit_and a b ≤ b
bit_and-le a b = bit_and-le_fuel a a b (omega arith)

pub bit_and-one : (n : ℕ) → bit_and n 1 ≡ n % 2
bit_and-one n = omega (arith, bit_and-le n 1, bit-bit_and n 1 0)

pub bit-add_one : (n i : ℕ) → bit n (i + 1) ≡ bit (n / 2) i
bit-add_one n i = rw add-one refl

-- A predicate on two numbers, checked at every pair below two bounds.
abbrev pub all_pairs : ℕ → ℕ → (ℕ → ℕ → Bool) → Bool
all_pairs n m p = all_below n (λ x. all_below m (p x))

pub all_pairs_sound :
    (n m : ℕ) (p : ℕ → ℕ → Bool) (x y : ℕ) → all_pairs n m p ≡ true → x < n → y < m → p x y ≡ true
all_pairs_sound n m p x y h hx hy =
    all_below_sound m (p x) y (all_below_sound n (λ x. all_below m (p x)) x h hx) hy

bit_and-odd : (n m : ℕ) → bit_and n (2 * m + 1) ≡ bit_and (n / 2) m * 2 + n % 2
bit_and-odd n m =
    let half : (2 * m + 1) / 2 ≡ m = omega arith in
    let odd : (2 * m + 1) % 2 ≡ 1 = omega arith in
    bit_and-halve n (2 * m + 1) ∙ rw (half, odd) (omega arith)

bit_and-nibble : (n : ℕ) → bit_and n 0xf ≡ n % 2 ^ 4
bit_and-nibble n = omega (
  arith,
  bit_and-odd n 7,
  bit_and-odd (n / 2) 3,
  bit_and-odd (n / 2 / 2) 1,
  bit_and-one (n / 2 / 2 / 2),
)

-- The low byte.
pub bit_and-byte : (n : ℕ) → bit_and n 0xff ≡ n % 2 ^ 8
bit_and-byte n = omega (
  arith,
  bit_and-odd n 127,
  bit_and-odd (n / 2) 63,
  bit_and-odd (n / 2 / 2) 31,
  bit_and-odd (n / 2 / 2 / 2) 15,
  bit_and-nibble (n / 2 / 2 / 2 / 2),
)
