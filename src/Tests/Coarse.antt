-- ===== src/Tests/Coarse.antt =====
-- A coarse arithmetic that has the laws of `Arithmetic`: tenths, where n stands for (n - 10) / 10.
use wavelen.Prelude.{
  ℕ, zero, suc, ◌+◌, ◌-◌, ◌*◌, ◌/◌, ◌≤◌, true, not, leb, ltb, nat_beq, if◌then◌else◌, ◌≡◌, ◌⊎◌, inl,
  inr, refl, arith, Bool-cases,
}
use wavelen.Color.Floats.{Arithmetic}

abbrev pub tenths : ℕ → ℕ → ℕ
tenths n zero = 10 + 10 * n
tenths n (suc k) = 10 + n

abbrev pub least : ℕ → ℕ → ℕ
least x y = if leb x y then x else y

abbrev pub greatest : ℕ → ℕ → ℕ
greatest x y = if leb x y then y else x

pub total : (x y : ℕ) → (leb x y ≡ true) ⊎ (leb y x ≡ true)
total x y = elim (Bool-cases (leb x y)) [ inl h ↦ inl h | inr h ↦ inr (ground arith) ]

pub trans : (x y z : ℕ) → leb x y ≡ true → leb y z ≡ true → leb x z ≡ true
trans x y z h k = ground arith

pub apart : (x y : ℕ) → ltb x y ≡ not (leb y x)
apart x y = ground arith

pub bottom : (n k : ℕ) → leb (tenths 0 0) (tenths n k) ≡ true
bottom n zero = ground arith
bottom n (suc k) = ground arith

pub middle :
    (x y : ℕ)
    → leb 10 x ≡ true
    → leb x y ≡ true
    → leb y 20 ≡ true
    → (leb x (10 + (x + y - 10 - 10) / 2) ≡ true) × (leb (10 + (x + y - 10 - 10) / 2) y ≡ true)
middle x y h k l = (ground arith, ground arith)

pub least_le : (x y : ℕ) → leb (least x y) y ≡ true
least_le x y = ground arith

pub whole_le : (x n : ℕ) → leb x (10 + 10 * n) ≡ true → (x - 10) / 10 ≤ n
whole_le x n h = ground arith

pub whole_lt : (x n : ℕ) → ltb x (10 + 10 * suc n) ≡ true → (x - 10) / 10 ≤ n
whole_lt x n h = ground arith

instance abbrev pub coarse : Arithmetic ℕ
coarse = record {
  literal = tenths;
  plus = λ x y. x + y - 10;
  minus = λ x y. x - y + 10;
  times = least;
  over = λ x y. 10 + (x - 10) / 2;
  leq = leb;
  less = ltb;
  equals = nat_beq;
  minimum = least;
  maximum = greatest;
  negated = λ x. 20 - x;
  pi = 41;
  absolute = λ x. x;
  cbrt = λ x. x;
  sqrt = λ x. x;
  hypot = greatest;
  atan2 = λ y x. y;
  cosine = λ x. x;
  sine = λ x. x;
  power = λ x y. x;
  modulo = λ x y. x;
  round = λ x. x;
  trunc = λ x. x;
  whole = λ x. (x - 10) / 10;
  leq_total = total;
  leq_trans = trans;
  less_lem = apart;
  zero_le_literal = bottom;
  half_le_one = refl;
  below_zero = refl;
  halfway = middle;
  minimum_le = least_le;
  times_le = λ x n h. least_le x (10 + 10 * n);
  whole_round = whole_le;
  whole_less = whole_lt;
}
