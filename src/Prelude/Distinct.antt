-- ===== src/Prelude/Distinct.antt =====
-- Lists of numbers without a repetition, and lists by their entries.
use Prim.Native.Nat.{ℕ, zero, suc, ◌+◌, ◌*◌, ◌^◌, ◌<◌}
use mathlib.Core.Path.{◌≡◌, refl, sym, ap}
use mathlib.Core.Logic.{◌≢◌}
use mathlib.Core.Bool.{Bool, true, not, ◌&&◌}
use mathlib.Core.List.{List, [], ◌∷◌, ◌++◌, map}
use native.Mathlib.Omega.{arith}
use stm32f3_oscilloscope.Prelude.Tests.{◌==◌}
use stm32f3_oscilloscope.Prelude.Lists.{length, get_or, all}

-- A list of bytes as one number.
abbrev pub number : List ℕ → ℕ
number [] = 0
number (x ∷ xs) = x + 2 ^ 8 * number xs

abbrev absent : ℕ → List ℕ → Bool
absent n [] = true
absent n (m ∷ ms) = not (n == m) && absent n ms

abbrev pub distinct : List ℕ → Bool
distinct [] = true
distinct (n ∷ ns) = absent n ns && distinct ns

absent_sound :
    (n : ℕ) (ns : List ℕ) (i : ℕ) → absent n ns ≡ true → i < length ns → n ≢ get_or ns i 0
absent_sound n [] i h lt = absurd (omega arith)
absent_sound n (m ∷ ms) zero h lt = ground arith
absent_sound n (m ∷ ms) (suc i) h lt = absent_sound n ms i (ground arith) (omega arith)

pub distinct_sound :
    (ns : List ℕ) (i j : ℕ)
    → distinct ns ≡ true
    → i < length ns
    → j < length ns
    → get_or ns i 0 ≡ get_or ns j 0
    → i ≡ j
distinct_sound [] i j h hi hj e = absurd (omega arith)
distinct_sound (n ∷ ns) zero zero h hi hj e = refl
distinct_sound (n ∷ ns) zero (suc j) h hi hj e =
    absurd (absent_sound n ns j (ground arith) (omega arith) e)
distinct_sound (n ∷ ns) (suc i) zero h hi hj e =
    absurd (absent_sound n ns i (ground arith) (omega arith) (sym e))
distinct_sound (n ∷ ns) (suc i) (suc j) h hi hj e =
    ap suc (distinct_sound ns i j (ground arith) (omega arith) (omega arith) e)

module _ {ℓ κ} {A : Type ℓ} {B : Type κ} (f : A → B) where
  pub length-map : (xs : List A) → length (map f xs) ≡ length xs
  length-map [] = refl
  length-map (x ∷ xs) = ap suc (length-map xs)

  pub get_or-map : (xs : List A) (i : ℕ) (d : A) → get_or (map f xs) i (f d) ≡ f (get_or xs i d)
  get_or-map [] i d = refl
  get_or-map (x ∷ xs) zero d = refl
  get_or-map (x ∷ xs) (suc i) d = get_or-map xs i d

pub list_ext :
    (n : ℕ) (xs ys : List ℕ)
    → length xs ≡ n
    → length ys ≡ n
    → ((i : ℕ) → i < n → get_or xs i 0 ≡ get_or ys i 0)
    → xs ≡ ys
list_ext n [] [] hx hy same = refl
list_ext n [] (y ∷ ys) hx hy same = absurd (omega arith)
list_ext n (x ∷ xs) [] hx hy same = absurd (omega arith)
list_ext zero (x ∷ xs) (y ∷ ys) hx hy same = absurd (omega arith)
list_ext (suc n) (x ∷ xs) (y ∷ ys) hx hy same = rw (
  same 0 (omega arith),
  list_ext n xs ys (omega arith) (omega arith) (λ i h. same (suc i) (omega arith)),
)

pub get_or-append_left :
    (xs ys : List ℕ) (i : ℕ) → i < length xs → get_or (xs ++ ys) i 0 ≡ get_or xs i 0
get_or-append_left [] ys i h = absurd (omega arith)
get_or-append_left (x ∷ xs) ys zero h = refl
get_or-append_left (x ∷ xs) ys (suc i) h = get_or-append_left xs ys i (omega arith)

pub get_or-append_right :
    (xs ys : List ℕ) (i j : ℕ) → i ≡ length xs + j → get_or (xs ++ ys) i 0 ≡ get_or ys j 0
get_or-append_right [] ys i j e = ap (λ (k : ℕ). get_or ys k 0) (omega arith)
get_or-append_right (x ∷ xs) ys zero j e = absurd (omega arith)
get_or-append_right (x ∷ xs) ys (suc i) j e = get_or-append_right xs ys i j (omega arith)

pub all_sound :
    (p : ℕ → Bool) (xs : List ℕ) (i : ℕ)
    → all p xs ≡ true
    → i < length xs
    → p (get_or xs i 0) ≡ true
all_sound p [] i h lt = absurd (omega arith)
all_sound p (x ∷ xs) zero h lt = ground arith
all_sound p (x ∷ xs) (suc i) h lt = all_sound p xs i (ground arith) (omega arith)

pub get_or-default {ℓ} :
    {A : Type ℓ} (xs : List A) (i : ℕ) (d d' : A) → i < length xs → get_or xs i d ≡ get_or xs i d'
get_or-default [] i d d' h = absurd (omega arith)
get_or-default (x ∷ xs) zero d d' h = refl
get_or-default (x ∷ xs) (suc i) d d' h = get_or-default xs i d d' (omega arith)
