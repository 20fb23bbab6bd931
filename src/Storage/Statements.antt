-- ===== src/Storage/Statements.antt =====
-- Rules for the statements of the repositories under a failing database: each does what it does without
-- failures or reports one, and then leaves the tables alone.
use wavelen.Prelude.{ℕ, Option, none, some, nat_eq, ok, ◌≡◌, refl, ap}
use wavelen.Errors.{PgError, Error, storage_error}
use wavelen.Storage.Schema.{Tables}
use wavelen.Storage.Actions.{World, statement, rescue, row_or_none, select_one, change, gets}
use wavelen.Storage.Faults.{clear, settled, IsRobust, IsAtomic, IsReading, Reports, query-IsRobust}
use wavelen.Storage.Faults.Reading.{query-IsReading, query-IsAtomic}

module _ {A : Type 0} where
  row_or_none-settled :
      (o : Option A) (w : World) → row_or_none o (clear w) ≡ settled (row_or_none o w)
  unfolding row_or_none
  row_or_none-settled none w = refl
  row_or_none-settled (some a) w = refl

  row_or_none-tables : (o : Option A) (w : World) → (row_or_none o w).1.tables ≡ w.tables
  unfolding row_or_none
  row_or_none-tables none w = refl
  row_or_none-tables (some a) w = refl

  -- A SELECT of one row, whose test reads no failure.
  module _ (f : PgError → Error) (select : World → Option A) where
    pub select-IsRobust :
        Reports f
        → ((w : World) → select (clear w) ≡ select w)
        → IsRobust (rescue f (select_one select))
    unfolding select_one
    select-IsRobust r h =
        query-IsRobust f _ (record { at = λ w. rw (h w) (row_or_none-settled (select w) w) }) r

    pub select-IsReading : IsReading (rescue f (select_one select))
    unfolding select_one
    select-IsReading = query-IsReading f _ (λ w. row_or_none-tables (select w) w)

  -- A SELECT of a value.
  module _ (f : PgError → Error) (value : World → A) where
    pub gets-IsRobust :
        Reports f
        → ((w : World) → value (clear w) ≡ value w)
        → IsRobust (rescue f (statement (gets value)))
    gets-IsRobust r h =
        query-IsRobust f _ (record { at = λ w. ap (λ (a : A). (ok a, clear w)) (h w) }) r

    pub gets-IsReading : IsReading (rescue f (statement (gets value)))
    gets-IsReading = query-IsReading f _ (λ w. refl)

module _ (f : PgError → Error) (write : World → ℕ × Tables) where
  pub change-IsRobust :
      Reports f → ((w : World) → write (clear w) ≡ write w) → IsRobust (rescue f (change write))
  unfolding change
  change-IsRobust r h =
      query-IsRobust f _
        (record {
          at = λ w. ap (λ (x : ℕ × Tables). (ok x.0, record (clear w) { tables = x.1 })) (h w);
        })
        r

  pub change-IsAtomic : IsAtomic (rescue f (change write))
  unfolding change
  change-IsAtomic = query-IsAtomic f _ (λ w e h. cc)

pub storage_error-Reports : Reports storage_error
storage_error-Reports = record { at = λ e. refl }
