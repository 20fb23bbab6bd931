-- ===== src/Server/Lifecycle.antt =====
-- `Start` of internal/server/server.go: the goroutine that serves, the channel of its error, the
-- context, and the shutdown, as a step relation. What `ListenAndServe` and `Shutdown` of net/http
-- return is part of the steps; `ListenAndServe` returns `ErrServerClosed` only after a shutdown began.
pub mod Ends
use wavelen.Prelude.{Bytes, Bool, true, false, Option, some, none, ◌≡◌, ◌≢◌}

-- `ErrServe` and `ErrShutdown`, each with the text of its cause.
pub data StartError : Type 0 where
  serve_failed : Bytes → StartError
  shutdown_incomplete : Bytes → StartError

-- The goroutine: in `ListenAndServe`, or after it returned `ErrServerClosed` or another error.
pub data Serving : Type 0 where
  listening : Serving
  server_closed : Serving
  unexpected : Bytes → Serving

-- The caller: at the `select`, in `Shutdown`, or back with its result.
pub data Stage : Type 0 where
  waiting : Stage
  draining : Stage
  returned : Option StartError → Stage

pub record Process : Type 0 where
  pub serving : Serving
  pub err_serve_ch : Option Bytes
  pub cancelled : Bool
  pub stage : Stage

abbrev pub started : Process
started = record { serving = listening; err_serve_ch = none; cancelled = false; stage = waiting }

-- What the goroutine sends.
unfoldable pub sent : Serving → Option Bytes
sent listening = none
sent server_closed = none
sent (unexpected e) = some e

-- The end of `Shutdown`.
unfoldable pub after_shutdown : Option Bytes → Stage
after_shutdown none = returned none
after_shutdown (some e) = returned (some (shutdown_incomplete e))

-- What happens around the caller.
pub data Event : Process → Process → Type 0 where
  serve_fails :
      (e : Bytes) (c : Bool) (s : Stage)
      → Event
          (record { serving = listening; err_serve_ch = none; cancelled = c; stage = s })
          (record {
            serving = unexpected e;
            err_serve_ch = sent (unexpected e);
            cancelled = c;
            stage = s;
          })
  -- only once the caller is in `Shutdown` or past it
  serve_closes :
      (c : Bool) (s : Stage)
      → s ≢ waiting
      → Event
          (record { serving = listening; err_serve_ch = none; cancelled = c; stage = s })
          (record {
            serving = server_closed;
            err_serve_ch = sent server_closed;
            cancelled = c;
            stage = s;
          })
  cancel :
      (g : Serving) (ch : Option Bytes) (c : Bool) (s : Stage)
      → Event
          (record { serving = g; err_serve_ch = ch; cancelled = c; stage = s })
          (record { serving = g; err_serve_ch = ch; cancelled = true; stage = s })

-- What the caller does.
pub data Move : Process → Process → Type 0 where
  -- the two cases of the `select`; when both are ready, either is taken
  receive :
      (g : Serving) (e : Bytes) (c : Bool)
      → Move
          (record { serving = g; err_serve_ch = some e; cancelled = c; stage = waiting })
          (record {
            serving = g;
            err_serve_ch = none;
            cancelled = c;
            stage = returned (some (serve_failed e));
          })
  done :
      (g : Serving) (ch : Option Bytes)
      → Move
          (record { serving = g; err_serve_ch = ch; cancelled = true; stage = waiting })
          (record { serving = g; err_serve_ch = ch; cancelled = true; stage = draining })
  shut_down :
      (g : Serving) (ch : Option Bytes) (c : Bool) (answer : Option Bytes)
      → Move
          (record { serving = g; err_serve_ch = ch; cancelled = c; stage = draining })
          (record { serving = g; err_serve_ch = ch; cancelled = c; stage = after_shutdown answer })

pub data Runs : Process → Type 0 where
  start : Runs started
  happens : (p q : Process) → Runs p → Event p q → Runs q
  moves : (p q : Process) → Runs p → Move p q → Runs q
