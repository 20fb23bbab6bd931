-- ===== src/Prelude/Integers.antt =====
-- Go's `int` and `time.Duration`, as far as they are compared: integers over the native numbers.
use Prim.Native.Nat.{ℕ, suc, ◌≤◌}
use mathlib.Core.Path.{◌≡◌, refl}
use mathlib.Core.Bool.{Bool, true, false, not}
use native.Mathlib.Omega.{arith}
use wavelen.Prelude.Tests.{leb}

pub data ℤ : Type 0 where
  pos : ℕ → ℤ
  negsuc : ℕ → ℤ

-- `<=`
abbrev pub lez : ℤ → ℤ → Bool
lez (pos a) (pos b) = leb a b
lez (pos a) (negsuc b) = false
lez (negsuc a) (pos b) = true
lez (negsuc a) (negsuc b) = leb b a

-- `<`
abbrev pub ltz : ℤ → ℤ → Bool
ltz a b = not (lez b a)

-- What is not below a number is that number or one above it.
pub pos_of_not_lt : (m : ℕ) (z : ℤ) → ltz z (pos m) ≡ false → (n : ℕ) × (z ≡ pos n) × (m ≤ n)
pos_of_not_lt m (pos n) h = (n, refl, ground arith)
pos_of_not_lt m (negsuc n) h = absurd (ground arith)

-- What is not up to a number is above it.
pub pos_of_not_le : (m : ℕ) (z : ℤ) → lez z (pos m) ≡ false → (n : ℕ) × (z ≡ pos n) × (suc m ≤ n)
pos_of_not_le m (pos n) h = (n, refl, ground arith)
pos_of_not_le m (negsuc n) h = absurd (ground arith)
