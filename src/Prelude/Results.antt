-- ===== src/Prelude/Results.antt =====
-- Fallible computations: Go's `(value, error)` with exactly one of the two meaningful.
use mathlib.Core.Path.{◌≡◌, refl}
use mathlib.Core.Logic.{◌⊎◌, inl, inr}

pub data Result (E A : Type 0) : Type 0 where
  ok : A → Result E A
  err : E → Result E A

module _ {E A B : Type 0} where
  abbrev pub and_then : Result E A → (A → Result E B) → Result E B
  and_then (ok a) f = f a
  and_then (err e) f = err e

  abbrev pub on_ok : (A → B) → Result E A → Result E B
  on_ok f (ok a) = ok (f a)
  on_ok f (err e) = err e

module _ {E F A : Type 0} where
  abbrev pub on_err : (E → F) → Result E A → Result F A
  on_err f (ok a) = ok a
  on_err f (err e) = err (f e)

module _ {E A : Type 0} where
  pub Result-cases : (r : Result E A) → ((a : A) × (r ≡ ok a)) ⊎ ((e : E) × (r ≡ err e))
  Result-cases (ok a) = inl (a, refl)
  Result-cases (err e) = inr (e, refl)
