-- ===== src/Storage/Faults.antt =====
-- How the failures of the database reach a method's result. Without failures a method is a
-- function of the tables; these rules say that with them it does the same, or reports the failure.
pub mod Reading
use wavelen.Prelude.{
  ℕ, Bool, true, false, Option, none, some, List, [], ◌∷◌, Result, ok, err, on_err, if◌then◌else◌,
  ◌≡◌, refl, ap, ◌∙◌, ◌⊎◌, inl, inr, arith,
}
use wavelen.Errors.{nested_tx, PgError, driver, Error, storage_error}
use wavelen.Storage.Schema.{Tables}
use wavelen.Storage.Actions.{
  World, Action, M, Statement, Querier, pool, tx, statement, in_tx, rescue, continue, pure, raise,
  gets, ◌>>=◌, attempt, committed, finish, begun, body_on,
}

-- The same world with a database that answers.
abbrev pub clear : World → World
clear w = record w { faults = [] }

-- A failure of the database itself, as a method reports it.
abbrev pub is_fault : {A : Type 0} → Result Error A → Bool
is_fault (err (storage_error (driver e))) = true
is_fault _ = false

-- An outcome with the failures that are still to come left out.
abbrev pub settled : {E A : Type 0} → Result E A × World → Result E A × World
settled p = (p.0, clear p.1)

-- A statement's effect depends on no failure.
pub record IsPlain {A : Type 0} (s : Statement A) : Type 0 where
  pub at : (w : World) → s (clear w) ≡ settled (s w)

-- A method reports a failure, or does what it does when there is none.
pub record IsRobust {A : Type 0} (m : M A) : Type 0 where
  pub at : (w : World) → (is_fault (m w).0 ≡ true) ⊎ (m (clear w) ≡ settled (m w))

-- When a method reports a failure, the tables are as they were.
pub record IsAtomic {A : Type 0} (m : M A) : Type 0 where
  pub at : (w : World) → is_fault (m w).0 ≡ true → (m w).1.tables ≡ w.tables

-- A method changes no table.
pub record IsReading {A : Type 0} (m : M A) : Type 0 where
  pub at : (w : World) → (m w).1.tables ≡ w.tables

-- A failure keeps its meaning.
pub record Reports (f : PgError → Error) : Type 0 where
  pub at : (e : ℕ) → f (driver e) ≡ storage_error (driver e)

module _ {A : Type 0} (f : PgError → Error) (s : Statement A) where
  query_at :
      (w : World) (fs : List (Option ℕ))
      → IsPlain s
      → Reports f
      → (is_fault (on_err f (attempt s fs w).0) ≡ true)
        ⊎ (rescue f s (clear w) ≡ settled (rescue f (attempt s fs) w))
  unfolding attempt
  query_at w [] p r = inr (ap (λ (x : Result PgError A × World). (on_err f x.0, x.1)) (p.at w))
  query_at w (none ∷ fs) p r =
      inr (
        ap (λ (x : Result PgError A × World). (on_err f x.0, x.1))
          (p.at (record w { faults = fs })))
  query_at w (some e ∷ fs) p r = inl (rw (r.at e))

  pub query-IsRobust : IsPlain s → Reports f → IsRobust (rescue f (statement s))
  unfolding statement
  query-IsRobust p r = record { at = λ w. query_at w w.faults p r }

module _ {A : Type 0} where
  pub pure-IsRobust : (a : A) → IsRobust (pure a)
  pure-IsRobust a = record { at = λ w. inr refl }

  pub raise-IsRobust : (e : Error) → IsRobust (raise {A = A} e)
  raise-IsRobust e = record { at = λ w. inr refl }

  pub if-IsRobust : (b : Bool) (m n : M A) → IsRobust m → IsRobust n → IsRobust (if b then m else n)
  if-IsRobust true m n p q = p
  if-IsRobust false m n p q = q

module _ {A B : Type 0} (f : A → M B) where
  bind_at :
      ((a : A) → IsRobust (f a))
      → (p q : Result Error A × World) → (is_fault p.0 ≡ true) ⊎ (q ≡ settled p)
      → (is_fault (continue f p).0 ≡ true) ⊎ (continue f q ≡ settled (continue f p))
  bind_at r (ok a, w) q (inl h) = cc
  bind_at r (ok a, w) q (inr h) = rw h ((r a).at w)
  bind_at r (err (storage_error (driver e)), w) q (inl h) = inl refl
  bind_at r (err e, w) q (inl h) = inl h
  bind_at r (err e, w) q (inr h) = inr (rw h)

  pub bind-IsRobust : (m : M A) → IsRobust m → ((a : A) → IsRobust (f a)) → IsRobust (m >>= f)
  bind-IsRobust m p r = record { at = λ w. bind_at r (m w) (m (clear w)) (p.at w) }

module _ {A : Type 0} where
  committed_at :
      (t : Tables) (a : A) (w : World) (fs : List (Option ℕ))
      → (is_fault (committed t a (attempt (pure tt) fs w)).0 ≡ true)
        ⊎ ((ok a, clear w) ≡ settled (committed t a (attempt (pure tt) fs w)))
  unfolding attempt committed
  committed_at t a w [] = inr refl
  committed_at t a w (none ∷ fs) = inr refl
  committed_at t a w (some e ∷ fs) = inl refl

  finish_at :
      (t : Tables) (p q : Result Error A × World)
      → (is_fault p.0 ≡ true) ⊎ (q ≡ settled p)
      → (is_fault (finish tx t p).0 ≡ true) ⊎ (finish tx t q ≡ settled (finish tx t p))
  unfolding finish
  finish_at t (ok a, w) q (inl h) = cc
  finish_at t (ok a, w) q (inr h) =
      rw h (unfold statement committed attempt in committed_at t a w w.faults)
  finish_at t (err e, w) q (inl h) = inl h
  finish_at t (err e, w) q (inr h) = inr (rw h)

  begun_at :
      (fn : Querier → M A) (w : World) (fs : List (Option ℕ))
      → IsRobust (fn tx)
      → (is_fault (begun fn (attempt (pure tt) fs w)).0 ≡ true)
        ⊎ (finish tx w.tables (fn tx (clear w)) ≡ settled (begun fn (attempt (pure tt) fs w)))
  unfolding attempt begun body_on
  begun_at fn w [] r = finish_at w.tables _ _ (r.at w)
  begun_at fn w (none ∷ fs) r = finish_at w.tables _ _ (r.at (record w { faults = fs }))
  begun_at fn w (some e ∷ fs) r = inl refl

  pub in_tx-IsRobust : (fn : Querier → M A) → IsRobust (fn tx) → IsRobust (in_tx pool fn)
  unfolding in_tx
  in_tx-IsRobust fn r = record { at = λ w. begun_at fn w w.faults r }

  committed-tables :
      (t : Tables) (a : A) (w : World) (fs : List (Option ℕ)) (e : Error)
      → (committed t a (attempt (pure tt) fs w)).0 ≡ err e
      → (committed t a (attempt (pure tt) fs w)).1.tables ≡ t
  unfolding attempt committed
  committed-tables t a w [] e h = cc
  committed-tables t a w (none ∷ fs) e h = cc
  committed-tables t a w (some x ∷ fs) e h = refl

  finish-tables :
      (t : Tables) (p : Result Error A × World) (e : Error)
      → (finish tx t p).0 ≡ err e
      → (finish tx t p).1.tables ≡ t
  unfolding finish statement
  finish-tables t (ok a, w) e h = committed-tables t a w w.faults e h
  finish-tables t (err x, w) e h = refl

  begun-tables :
      (fn : Querier → M A) (w : World) (fs : List (Option ℕ)) (e : Error)
      → (begun fn (attempt (pure tt) fs w)).0 ≡ err e
      → (begun fn (attempt (pure tt) fs w)).1.tables ≡ w.tables
  unfolding attempt begun body_on
  begun-tables fn w [] e h = finish-tables w.tables _ e h
  begun-tables fn w (none ∷ fs) e h = finish-tables w.tables _ e h
  begun-tables fn w (some x ∷ fs) e h = refl

  -- Whatever its body does, a transaction that ends with an error (of the body, at BEGIN or at
  -- COMMIT) leaves the tables as they were.
  in_tx-rolls_back :
      (fn : Querier → M A) (w : World) (e : Error)
      → (in_tx pool fn w).0 ≡ err e
      → (in_tx pool fn w).1.tables ≡ w.tables
  unfolding in_tx
  in_tx-rolls_back fn w e h = begun-tables fn w w.faults e h

  finish_err :
      (t : Tables) (p : Result Error A × World) (e : Error)
      → p.0 ≡ err e
      → (finish tx t p).0 ≡ err e
  unfolding finish
  finish_err t (ok a, w) e h = cc
  finish_err t (err x, w) e h = h

  -- A body that opens a transaction of its own with the storage that it is given.
  abbrev pub nesting : (Querier → M A) → (Querier → M A) → Querier → M A
  nesting fn g q = fn q >>= λ _. in_tx q g

  nested_err :
      (g : Querier → M A) (p : Result Error A × World)
      → (e : Error) × ((continue (λ _. in_tx tx g) p).0 ≡ err e)
  unfolding in_tx
  nested_err g (ok a, w) = (nested_tx, refl)
  nested_err g (err e, w) = (e, refl)

  begun_err :
      (fn g : Querier → M A) (w : World) (fs : List (Option ℕ))
      → (e : Error) × ((begun (nesting fn g) (attempt (pure tt) fs w)).0 ≡ err e)
  unfolding attempt begun body_on
  begun_err fn g w [] = let (e, h) = nested_err g (fn tx w) in (e, finish_err w.tables _ e h)
  begun_err fn g w (none ∷ fs) =
      let (e, h) = nested_err g (fn tx (record w { faults = fs })) in (e, finish_err w.tables _ e h)
  begun_err fn g w (some x ∷ fs) = (storage_error (driver x), refl)

  pub in_tx-nested :
      (fn g : Querier → M A) (w : World)
      → ((e : Error) × ((in_tx pool (nesting fn g) w).0 ≡ err e))
        × ((in_tx pool (nesting fn g) w).1.tables ≡ w.tables)
  unfolding in_tx statement
  in_tx-nested fn g w =
      let (e, h) = begun_err fn g w w.faults in ((e, h), in_tx-rolls_back (nesting fn g) w e h)

  pub eq-err_of_is_fault : (r : Result Error A) → is_fault r ≡ true → (e : Error) × (r ≡ err e)
  eq-err_of_is_fault (ok a) h = cc
  eq-err_of_is_fault (err e) h = (e, refl)

  pub in_tx-IsAtomic : (fn : Querier → M A) → IsAtomic (in_tx pool fn)
  in_tx-IsAtomic fn = record {
    at = λ w h. let (e, q) = eq-err_of_is_fault _ h in in_tx-rolls_back fn w e q;
  }
