-- ===== src/Storage/Actions.antt =====
-- internal/storage/storage.go: statements, the failures of the database, and transactions.
-- A method returns its result and the world that it leaves. The database may fail at every
-- statement, at BEGIN and at COMMIT: `faults` says where, and a statement that fails has no effect.
use wavelen.Prelude.{ℕ, Bytes, Option, none, some, List, [], ◌∷◌, Result, ok, err, on_err}
use wavelen.Errors.{PgError, driver, no_rows, Error, storage_error, nested_tx}
use wavelen.Storage.Schema.{Tables}

-- What the server brings besides its tables: the folding of a `citext` column, the sort key of a
-- color (`color.Feel`) and the values of `uuidv7()`.
pub record Env : Type 0 where
  pub citext : Bytes → Bytes
  pub feel : Bytes → ℕ
  pub uuid : ℕ → ℕ

-- Sequences (`user_seq`, `uuid_seq`) and the clock are not rolled back.
pub record World : Type 0 where
  pub env : Env
  pub tables : Tables
  pub now : ℕ
  pub user_seq : ℕ
  pub uuid_seq : ℕ
  pub faults : List (Option ℕ)

abbrev pub Action : Type 0 → Type 0 → Type 0
Action E A = World → Result E A × World

abbrev pub M : Type 0 → Type 0
M A = Action Error A

abbrev pub Statement : Type 0 → Type 0
Statement A = Action PgError A

module _ {E A : Type 0} where
  abbrev pub pure : A → Action E A
  pure a w = (ok a, w)

  abbrev pub raise : E → Action E A
  raise e w = (err e, w)

  abbrev pub gets : (World → A) → Action E A
  gets f w = (ok (f w), w)

module _ {E A B : Type 0} where
  abbrev pub continue : (A → Action E B) → Result E A × World → Result E B × World
  continue f (ok a, w) = f a w
  continue f (err e, w) = (err e, w)

  infixl 5 ◌>>=◌ ◌>>◌
  abbrev pub ◌>>=◌ : Action E A → (A → Action E B) → Action E B
  ◌>>=◌ m f w = continue f (m w)

  abbrev pub ◌>>◌ : Action E A → Action E B → Action E B
  ◌>>◌ m n = m >>= λ _. n

module _ {E F A : Type 0} where
  -- `if err != nil { … }` around one call: how the error of a statement becomes the method's.
  abbrev pub rescue : (E → F) → Action E A → Action F A
  rescue f m w = (on_err f (m w).0, (m w).1)

module _ {A : Type 0} where
  unfoldable pub attempt : Statement A → List (Option ℕ) → Statement A
  attempt m [] w = m w
  attempt m (none ∷ fs) w = m (record w { faults = fs })
  attempt m (some e ∷ fs) w = (err (driver e), record w { faults = fs })

  -- One round trip to the server.
  unfoldable pub statement : Statement A → Statement A
  unfolding attempt
  statement m w = attempt m w.faults w

-- What the querier of a `Postgres` is: the pool, or a transaction.
pub data Querier : Type 0 where
  pool tx : Querier

module _ {A : Type 0} where
  -- COMMIT: on success the transaction's tables stay, on failure those from before come back.
  unfoldable pub committed : Tables → A → Result PgError (Unit {0}) × World → Result Error A × World
  committed before a (ok _, w) = (ok a, w)
  committed before a (err e, w) = (err (storage_error e), record w { tables = before })

  -- The body returned: COMMIT after nil, ROLLBACK after an error. Both are about the statements that
  -- were made by the transaction: what a body did by the pool is there already, and stays.
  unfoldable pub finish : Querier → Tables → Result Error A × World → Result Error A × World
  finish tx before (ok a, w) = committed before a (statement (pure tt) w)
  finish tx before (err e, w) = (err e, record w { tables = before })
  finish pool before (ok a, w) = committed w.tables a (statement (pure tt) w)
  finish pool before (err e, w) = (err e, w)

  -- The body with the storage of a querier, inside a transaction.
  unfoldable pub body_on : Querier → (Querier → M A) → M A
  unfolding finish
  body_on q fn w = finish q w.tables (fn q w)

  -- After BEGIN: the body is given the transaction.
  unfoldable pub begun :
      (Querier → M A) → Result PgError (Unit {0}) × World → Result Error A × World
  unfolding body_on
  begun fn (ok _, w) = body_on tx fn w
  begun fn (err e, w) = (err (storage_error e), w)

  -- `Postgres.InTx`, over `pgx.BeginFunc`, which begins and ends the transaction.
  unfoldable pub in_tx : Querier → (Querier → M A) → M A
  unfolding statement committed finish body_on begun
  in_tx tx fn = raise nested_tx
  in_tx pool fn = λ w. begun fn (statement (pure tt) w)

module _ {A : Type 0} where
  unfoldable pub row_or_none : Option A → Statement A
  row_or_none none = raise no_rows
  row_or_none (some row) = pure row

  -- A SELECT of at most one row, by `QueryRow`.
  unfoldable pub select_one : (World → Option A) → Statement A
  unfolding row_or_none statement
  select_one select = statement λ w. row_or_none (select w) w

-- A statement that changes rows, by `Exec`: the rows affected, and the new tables.
unfoldable pub change : (World → ℕ × Tables) → Statement ℕ
unfolding statement
change f = statement λ w. let (n, t) = f w in (ok n, record w { tables = t })

-- `Postgres.Ping`, which runs `SELECT 1`.
unfoldable pub ping : Statement (Unit {0})
unfolding statement
ping = statement (pure tt)
