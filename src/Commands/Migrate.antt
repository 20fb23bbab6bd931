-- ===== src/Commands/Migrate.antt =====
-- cmd/migrate/main.go: applying the migrations. The package golang-migrate is not under the
-- repository: `Migrator`.
use wavelen.Prelude.{ℕ, Bytes, codes, Bool, true, false, Result, ok, err}
use wavelen.Errors.{Error}
use wavelen.Commands.Dsn.{Environment, Urls, dsn}

-- `migrate.Version`: `ErrNilVersion`, another error, or a version and whether it is dirty.
pub data VersionAnswer : Type 0 where
  no_version : VersionAnswer
  unread : Bytes → VersionAnswer
  at_version : ℕ → Bool → VersionAnswer

-- `migrate.Up`: `ErrNoChange`, another error, or nil.
pub data UpAnswer : Type 0 where
  no_change : UpAnswer
  failed : Bytes → UpAnswer
  applied : UpAnswer

-- The schema, as golang-migrate sees and changes it.
pub record Migrator : Type 1 where
  pub Schema : Type 0
  pub connect : Bytes → Result Bytes (Unit {0})
  pub version : Schema → VersionAnswer
  pub up : Schema → UpAnswer × Schema

-- The errors that end the command.
pub data MigrateError : Type 0 where
  bad_dsn : Error → MigrateError
  not_opened : Bytes → MigrateError
  version_unread : Bytes → MigrateError
  is_dirty : ℕ → MigrateError
  not_applied : Bytes → MigrateError

-- The last log line.
pub data Done : Type 0 where
  up_to_date : ℕ → Done
  migrated : ℕ → ℕ → Done

-- `currentVersion`
unfoldable pub current_version : VersionAnswer → Result MigrateError ℕ
current_version no_version = ok 0
current_version (unread text) = err (version_unread text)
current_version (at_version v true) = err (is_dirty v)
current_version (at_version v false) = ok v

module _ (m : Migrator) where
  open m use {Schema, version, up}

  unfoldable pub reported : ℕ → Schema → Result MigrateError ℕ → Result MigrateError Done × Schema
  reported from s (ok to) = (ok (migrated from to), s)
  reported from s (err e) = (err e, s)

  unfoldable pub after_up : ℕ → UpAnswer × Schema → Result MigrateError Done × Schema
  unfolding reported
  after_up from (no_change, s) = (ok (up_to_date from), s)
  after_up from (failed text, s) = (err (not_applied text), s)
  after_up from (applied, s) = reported from s (current_version (version s))

  unfoldable pub upgrade : Schema → Result MigrateError ℕ → Result MigrateError Done × Schema
  unfolding after_up
  upgrade s (err e) = (err e, s)
  upgrade s (ok from) = after_up from (up s)

  -- `run`, on an open database
  unfoldable pub migrate : Schema → Result MigrateError Done × Schema
  unfolding upgrade
  migrate s = upgrade s (current_version (version s))

  unfoldable pub opened : Schema → Result Bytes (Unit {0}) → Result MigrateError Done × Schema
  unfolding migrate
  opened s (ok _) = migrate s
  opened s (err text) = (err (not_opened text), s)

  unfoldable pub connected : Schema → Result Error Bytes → Result MigrateError Done × Schema
  unfolding opened
  connected s (ok url) = opened s (m.connect url)
  connected s (err e) = (err (bad_dsn e), s)

  -- `run`, after the embedded migrations are read
  unfoldable pub run : Urls → Environment → Schema → Result MigrateError Done × Schema
  unfolding connected
  run urls env s = connected s (dsn urls env (codes "pgx5"))

  unfoldable pub status : Result MigrateError Done × Schema → ℕ × Schema
  status (ok d, s) = (0, s)
  status (err e, s) = (1, s)

  -- `main`: the exit status, and the schema; without a log nothing is run.
  unfoldable pub main : Result Bytes (Unit {0}) → Urls → Environment → Schema → ℕ × Schema
  unfolding status run
  main (err text) urls env s = (1, s)
  main (ok _) urls env s = status (run urls env s)
