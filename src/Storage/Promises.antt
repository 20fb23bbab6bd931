-- ===== src/Storage/Promises.antt =====
-- What a method promises on the tables alone, and what it means that the method implements it.
use wavelen.Prelude.{true, Result, ◌≡◌, ◌⊎◌, inl, inr, ap, ◌∙◌, sym}
use wavelen.Errors.{Error}
use wavelen.Storage.Schema.{Tables}
use wavelen.Storage.Actions.{World, M}
use wavelen.Storage.Faults.{clear, settled, is_fault, IsRobust, IsAtomic}

-- The result that is promised, and the tables that are left.
abbrev pub Promise : Type 0 → Type 0
Promise A = Result Error A × Tables

-- Either the promise is kept, or the method reports a failure of the database and the tables are
-- as they were.
abbrev pub Implements : {A : Type 0} → M A → World → Promise A → Type 0
Implements m w p =
    (((m w).0 ≡ p.0) × ((m w).1.tables ≡ p.1))
    ⊎ ((is_fault (m w).0 ≡ true) × ((m w).1.tables ≡ w.tables))

-- With a database that answers the promise is kept.
abbrev pub Keeps : {A : Type 0} → M A → World → Promise A → Type 0
Keeps m w p = ((m (clear w)).0 ≡ p.0) × ((m (clear w)).1.tables ≡ p.1)

module _ {A : Type 0} (m : M A) (w : World) (p : Promise A) where
  Implements-of :
      (is_fault (m w).0 ≡ true) ⊎ (m (clear w) ≡ settled (m w))
      → (is_fault (m w).0 ≡ true → (m w).1.tables ≡ w.tables)
      → Keeps m w p
      → Implements m w p
  Implements-of (inl h) a k = inr (h, a h)
  Implements-of (inr e) a k = inl (
    sym (ap (λ (x : Result Error A × World). x.0) e) ∙ k.0,
    sym (ap (λ (x : Result Error A × World). x.1.tables) e) ∙ k.1,
  )

  pub Keeps-Implements : IsRobust m → IsAtomic m → Keeps m w p → Implements m w p
  Keeps-Implements r a k = Implements-of (r.at w) (a.at w) k
