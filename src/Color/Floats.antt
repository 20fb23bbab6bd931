-- ===== src/Color/Floats.antt =====
-- The float64 values of internal/color with the operations of Go and of its package math on them,
-- which are not under the repository: an instance argument. The laws are those of the values that
-- the program meets, a NaN is none of them.
use wavelen.Prelude.{ℕ, suc, ◌≤◌, Bool, true, false, not, ◌≡◌, ◌⊎◌, inl, inr, Bool-cases, arith}

pub record Arithmetic (R : Type 0) : Type 0 where
  -- `literal n k` is the decimal constant n / 10 ^ k, and `float64(n)` where k is 0.
  pub literal : ℕ → ℕ → R
  pub plus : R → R → R
  pub minus : R → R → R
  pub times : R → R → R
  pub over : R → R → R
  -- `<=`, `<` and `==`
  pub leq : R → R → Bool
  pub less : R → R → Bool
  pub equals : R → R → Bool
  -- the builtins `min` and `max`
  pub minimum : R → R → R
  pub maximum : R → R → R
  pub negated : R → R
  -- the package math
  pub pi : R
  pub absolute : R → R
  pub cbrt : R → R
  pub sqrt : R → R
  pub hypot : R → R → R
  pub atan2 : R → R → R
  pub cosine : R → R
  pub sine : R → R
  pub power : R → R → R
  pub modulo : R → R → R
  pub round : R → R
  pub trunc : R → R
  -- `int(x)`, for an x that is not negative
  pub whole : R → ℕ
  pub leq_total : (x y : R) → (leq x y ≡ true) ⊎ (leq y x ≡ true)
  pub leq_trans : (x y z : R) → leq x y ≡ true → leq y z ≡ true → leq x z ≡ true
  pub less_lem : (x y : R) → less x y ≡ not (leq y x)
  pub zero_le_literal : (n k : ℕ) → leq (literal 0 0) (literal n k) ≡ true
  pub half_le_one : leq (literal 5 1) (literal 1 0) ≡ true
  pub below_zero : less (negated (literal 1 0)) (literal 0 0) ≡ true
  -- The middle of two values of [0, 1] is between them.
  pub halfway :
      (x y : R)
      → leq (literal 0 0) x ≡ true
      → leq x y ≡ true
      → leq y (literal 1 0) ≡ true
      → (leq x (over (plus x y) (literal 2 0)) ≡ true)
        × (leq (over (plus x y) (literal 2 0)) y ≡ true)
  pub minimum_le : (x y : R) → leq (minimum x y) y ≡ true
  -- Rounding is monotone: a factor up to 1 leaves n at most n.
  pub times_le :
      (x : R) (n : ℕ)
      → leq x (literal 1 0) ≡ true
      → leq (times x (literal n 0)) (literal n 0) ≡ true
  -- `math.Round` and the conversion give at most n up to n; the conversion
  -- alone cuts, and gives at most n below n + 1.
  pub whole_round : (x : R) (n : ℕ) → leq x (literal n 0) ≡ true → whole (round x) ≤ n
  pub whole_less : (x : R) (n : ℕ) → less x (literal (suc n) 0) ≡ true → whole x ≤ n

module _ {R : Type 0} ⦃arithmetic : Arithmetic R⦄ where
  infixl 65 ◌⊕◌ ◌⊖◌
  infixl 70 ◌⊗◌ ◌⊘◌
  abbrev pub ◌⊕◌ : R → R → R
  x ⊕ y = arithmetic.plus x y

  abbrev pub ◌⊖◌ : R → R → R
  x ⊖ y = arithmetic.minus x y

  abbrev pub ◌⊗◌ : R → R → R
  x ⊗ y = arithmetic.times x y

  abbrev pub ◌⊘◌ : R → R → R
  x ⊘ y = arithmetic.over x y

  open arithmetic use {leq, less, leq_total, leq_trans, less_lem}

  pub leq_refl : (x : R) → leq x x ≡ true
  leq_refl x = elim (leq_total x x) [ inl h ↦ h | inr h ↦ h ]

  -- What is not less is above.
  pub leq_of_not_less : (x y : R) → less x y ≡ false → leq y x ≡ true
  leq_of_not_less x y h = ground (arith, less_lem x y)

  pub leq_of_less : (x y : R) → less x y ≡ true → leq x y ≡ true
  leq_of_less x y h = elim (leq_total x y) [ inl le ↦ le | inr ge ↦ ground (arith, less_lem x y) ]

  pub less_leq_trans : (x y z : R) → less x y ≡ true → leq y z ≡ true → less x z ≡ true
  less_leq_trans x y z h h' = elim (Bool-cases (less x z)) [
    | inl e ↦ e
    | inr e ↦ ground (arith, less_lem x y, leq_trans y z x h' (leq_of_not_less x z e))
  ]
