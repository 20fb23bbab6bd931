-- ===== src/Storage/Faults/Reading.antt =====
-- Methods outside a transaction: they read, then write at most once.
use wavelen.Prelude.{
  ℕ, Bool, true, false, Option, none, some, List, [], ◌∷◌, Result, ok, err, on_err, if◌then◌else◌,
  ◌≡◌, refl, ◌∙◌,
}
use wavelen.Errors.{PgError, driver, Error, storage_error}
use wavelen.Storage.Schema.{Tables}
use wavelen.Storage.Actions.{
  World, M, Statement, statement, rescue, continue, pure, raise, ◌>>=◌, attempt,
}
use wavelen.Storage.Faults.{is_fault, IsAtomic, IsReading, eq-err_of_is_fault}

module _ {A : Type 0} where
  attempt-tables :
      (s : Statement A) (w : World) (fs : List (Option ℕ)) (t : Tables)
      → ((v : World) → (s v).1.tables ≡ v.tables)
      → (attempt s fs w).1.tables ≡ w.tables
  unfolding attempt
  attempt-tables s w [] t h = h w
  attempt-tables s w (none ∷ fs) t h = h (record w { faults = fs })
  attempt-tables s w (some e ∷ fs) t h = refl

  pub query-IsReading :
      (f : PgError → Error) (s : Statement A)
      → ((v : World) → (s v).1.tables ≡ v.tables)
      → IsReading (rescue f (statement s))
  unfolding statement
  query-IsReading f s h = record { at = λ w. attempt-tables s w w.faults w.tables h }

  eq-err_of_on_err :
      (f : PgError → Error) (r : Result PgError A) (e : Error)
      → on_err f r ≡ err e
      → (x : PgError) × (r ≡ err x)
  eq-err_of_on_err f (ok a) e h = cc
  eq-err_of_on_err f (err x) e h = (x, refl)

  attempt-atomic :
      (f : PgError → Error) (s : Statement A) (w : World) (fs : List (Option ℕ))
      → ((v : World) (e : PgError) → (s v).0 ≡ err e → (s v).1.tables ≡ v.tables)
      → (e : Error) → on_err f (attempt s fs w).0 ≡ err e
      → (attempt s fs w).1.tables ≡ w.tables
  unfolding attempt
  attempt-atomic f s w [] h e q = let (x, y) = eq-err_of_on_err f (s w).0 e q in h w x y
  attempt-atomic f s w (none ∷ fs) h e q =
      let v : World = record w { faults = fs } in
      let (x, y) = eq-err_of_on_err f (s v).0 e q in h v x y
  attempt-atomic f s w (some x ∷ fs) h e q = refl

  pub query-IsAtomic :
      (f : PgError → Error) (s : Statement A)
      → ((v : World) (e : PgError) → (s v).0 ≡ err e → (s v).1.tables ≡ v.tables)
      → IsAtomic (rescue f (statement s))
  unfolding statement
  query-IsAtomic f s h = record {
    at = λ w q. let (e, r) = eq-err_of_is_fault _ q in attempt-atomic f s w w.faults h e r;
  }

  pub IsReading-IsAtomic : (m : M A) → IsReading m → IsAtomic m
  IsReading-IsAtomic m r = record { at = λ w h. r.at w }

  pub pure-IsReading : (a : A) → IsReading (pure a)
  pure-IsReading a = record { at = λ w. refl }

  pub raise-IsReading : (e : Error) → IsReading (raise {A = A} e)
  raise-IsReading e = record { at = λ w. refl }

  pub if-IsAtomic : (b : Bool) (m n : M A) → IsAtomic m → IsAtomic n → IsAtomic (if b then m else n)
  if-IsAtomic true m n p q = p
  if-IsAtomic false m n p q = q

-- Once the last statement has been made, no failure can come.
pub record IsCalm {A : Type 0} (m : M A) : Type 0 where
  pub at : (w : World) → is_fault (m w).0 ≡ false

module _ {A B : Type 0} (f : A → M B) where
  continue-reading :
      ((a : A) → IsReading (f a))
      → (p : Result Error A × World) → (continue f p).1.tables ≡ p.1.tables
  continue-reading r (ok a, w) = (r a).at w
  continue-reading r (err e, w) = refl

  pub bind-IsReading : (m : M A) → IsReading m → ((a : A) → IsReading (f a)) → IsReading (m >>= f)
  bind-IsReading m p r = record { at = λ w. continue-reading r (m w) ∙ p.at w }

  continue-atomic :
      ((a : A) → IsAtomic (f a))
      → (p : Result Error A × World) (t : Tables) → p.1.tables ≡ t
      → is_fault (continue f p).0 ≡ true
      → (continue f p).1.tables ≡ t
  continue-atomic r (ok a, w) t e h = (r a).at w h ∙ e
  continue-atomic r (err x, w) t e h = e

  -- Reads first.
  pub bind-IsAtomic : (m : M A) → IsReading m → ((a : A) → IsAtomic (f a)) → IsAtomic (m >>= f)
  bind-IsAtomic m p r = record { at = λ w h. continue-atomic r (m w) w.tables (p.at w) h }

  continue-calm :
      ((a : A) → IsCalm (f a))
      → (p : Result Error A × World) (t : Tables) → (is_fault p.0 ≡ true → p.1.tables ≡ t)
      → is_fault (continue f p).0 ≡ true
      → (continue f p).1.tables ≡ t
  continue-calm r (ok a, w) t e h = cc ((r a).at w)
  continue-calm r (err (storage_error (driver x)), w) t e h = e refl
  continue-calm r (err x, w) t e h = e h

  -- The write last.
  pub then-IsAtomic : (m : M A) → IsAtomic m → ((a : A) → IsCalm (f a)) → IsAtomic (m >>= f)
  then-IsAtomic m p r = record { at = λ w h. continue-calm r (m w) w.tables (p.at w) h }
