-- ===== src/Commands/Api.antt =====
-- `main`, `run` and `logDBReachable` of cmd/api/main.go: the start, the signals and the exit status,
-- around `Start` of Server/Lifecycle.
pub mod Exits
use wavelen.Prelude.{
  ℕ, suc, Bytes, codes, Bool, true, false, Option, none, some, Result, ok, err, and_then, on_err,
  ◌≡◌,
}
use wavelen.Errors.{PgError, Error}
use wavelen.Storage.Actions.{World, ping}
use wavelen.Server.Middleware.{Level, info, warn}
use wavelen.Server.Lifecycle.{StartError, Stage, returned, Serving, Process, started, Event, Move}
use wavelen.Commands.Dsn.{Environment}
use wavelen.Commands.Config.{Libraries, Started, prepare}

-- Why `run` or the setup before it ends the program.
pub data RunError : Type 0 where
  no_logging : Bytes → RunError
  refused : Error → RunError
  no_pool : Bytes → RunError
  stopped : StartError → RunError

-- The exit status of `main`.
unfoldable pub status : Result RunError (Unit {0}) → ℕ
status (ok _) = 0
status (err e) = 1

unfoldable pub ended : Option StartError → Result RunError (Unit {0})
ended none = ok tt
ended (some e) = err (stopped e)

-- The disposition of SIGINT and SIGTERM: for `signal.NotifyContext`, or the default one.
pub data Handling : Type 0 where
  notified by_default : Handling

-- When a signal may end the process: between `signal.NotifyContext` and the end of `run`, or
-- before or after.
pub data Moment : Type 0 where
  inside outside : Moment

-- The process of the operating system: before `signal.NotifyContext`; in `run` before `Start`, with
-- whether the context is cancelled; in `Start`; after `run`, whose deferred `stop` is called; at its
-- end by itself, by SIGINT or SIGTERM, or by another signal, which the program leaves alone.
pub data Host : Type 0 where
  booting : Host
  preparing : Bool → Handling → Host
  alive : Process → Handling → Host
  leaving : ℕ → Host
  exited : ℕ → Host
  killed : Moment → Host
  felled : Host

-- Where SIGINT and SIGTERM have the default disposition.
unfoldable pub dies : Host → Option Moment
dies booting = some outside
dies (preparing c by_default) = some inside
dies (alive p by_default) = some inside
dies (leaving s) = some outside
dies _ = none

unfoldable pub is_running : Host → Bool
is_running (exited s) = false
is_running (killed d) = false
is_running felled = false
is_running _ = true

module _ (libs : Libraries) (env : Environment) (build : Bytes) where
  -- `run`: the settings, then the pool, then `Start` with the context as it is.
  unfoldable pub run :
      Bool → Handling → Result Error (Started libs env) → Result Bytes (Unit {0}) → Host
  unfolding status
  run c h (err e) pool = leaving (status (err (refused e)))
  run c h (ok settings) (err text) = leaving (status (err (no_pool text)))
  run c h (ok settings) (ok _) = alive (record started { cancelled = c }) h

-- `main`, up to the first lines of `run`: the answer of the setup of the logs.
unfoldable pub main : Result Bytes (Unit {0}) → Host
unfolding status
main (err text) = exited (status (err (no_logging text)))
main (ok _) = preparing false notified

-- `logDBReachable`, which only logs.
unfoldable pub reachable : Result PgError (Unit {0}) → Level × Bytes
reachable (ok _) = (info, codes "database connection pool established")
reachable (err e) = (warn, codes "database not reachable at startup")

unfoldable pub log_db_reachable : World → Level × Bytes
unfolding reachable ping
log_db_reachable w = reachable (ping w).0

-- The steps of the process, with the answers of the setup of the logs and of `NewWithConfig`; the
-- number counts the signals SIGINT and SIGTERM that it received.
pub data Runs (libs : Libraries) (env : Environment) (build : Bytes)
    (logging pool : Result Bytes (Unit {0})) : ℕ → Host → Type 0 where
  start : Runs libs env build logging pool 0 booting
  boot :
      (n : ℕ)
      → Runs libs env build logging pool n booting
      → Runs libs env build logging pool n (main logging)
  prepared :
      (n : ℕ) (c : Bool) (h : Handling)
      → Runs libs env build logging pool n (preparing c h)
      → Runs libs env build logging pool n (run libs env build c h (prepare libs env build) pool)
  -- a signal cancels the context, before `Start` or in it
  signal_early :
      (n : ℕ) (c : Bool)
      → Runs libs env build logging pool n (preparing c notified)
      → Runs libs env build logging pool (suc n) (preparing true notified)
  signal :
      (n : ℕ) (p : Process)
      → Runs libs env build logging pool n (alive p notified)
      → Runs libs env build logging pool (suc n) (alive (record p { cancelled = true }) notified)
  -- the goroutine after `<-ctx.Done()`
  stop_early :
      (n : ℕ)
      → Runs libs env build logging pool n (preparing true notified)
      → Runs libs env build logging pool n (preparing true by_default)
  stop :
      (n : ℕ) (p : Process)
      → Runs libs env build logging pool n (alive p notified)
      → p.cancelled ≡ true
      → Runs libs env build logging pool n (alive p by_default)
  -- SIGINT or SIGTERM by default
  kill :
      (n : ℕ) (h : Host) (d : Moment)
      → Runs libs env build logging pool n h
      → dies h ≡ some d
      → Runs libs env build logging pool (suc n) (killed d)
  -- another signal, such as SIGKILL, SIGQUIT and SIGHUP
  fell :
      (n : ℕ) (h : Host)
      → Runs libs env build logging pool n h
      → is_running h ≡ true
      → Runs libs env build logging pool n felled
  -- what happens in `Start`; nothing else cancels the context
  serve :
      (n : ℕ) (p q : Process) (h : Handling)
      → Runs libs env build logging pool n (alive p h)
      → Event p q
      → q.cancelled ≡ p.cancelled
      → Runs libs env build logging pool n (alive q h)
  move :
      (n : ℕ) (p q : Process) (h : Handling)
      → Runs libs env build logging pool n (alive p h)
      → Move p q
      → Runs libs env build logging pool n (alive q h)
  -- `run` returns, after its deferred calls
  leave :
      (n : ℕ) (p : Process) (h : Handling) (r : Option StartError)
      → Runs libs env build logging pool n (alive p h)
      → p.stage ≡ returned r
      → Runs libs env build logging pool n (leaving (status (ended r)))
  quit :
      (n : ℕ) (s : ℕ)
      → Runs libs env build logging pool n (leaving s)
      → Runs libs env build logging pool n (exited s)
