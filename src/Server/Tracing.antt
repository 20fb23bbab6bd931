-- ===== src/Server/Tracing.antt =====
-- internal/dbtrace/dbtrace.go: the log lines of slow statements and of slow waits for a connection.
-- Times are nanoseconds of a clock that does not run back; a threshold up to 0 turns its lines off.
pub mod Slow
use wavelen.Prelude.{ℕ, ◌-◌, ℤ, pos, lez, ltz, Bytes, Option, none, some, if◌then◌else◌}
use wavelen.Commands.Config.{Tracer}

-- `queryData`
pub record QueryData : Type 0 where
  pub started_at : ℕ
  pub sql : Bytes

-- What the tracer keeps in a context, under its two keys.
pub record Context : Type 0 where
  pub query : Option QueryData
  pub acquire : Option ℕ

-- What is logged of `pgxpool.Stat`.
pub record PoolStat : Type 0 where
  pub acquired_conns : ℕ
  pub total_conns : ℕ
  pub max_conns : ℕ
  pub new_conns : ℕ
  pub empty_acquires : ℕ

-- The log lines, with the error of the operation, if any.
pub data SlowLine : Type 0 where
  slow_query : ℕ → Bytes → Option Bytes → SlowLine
  slow_acquire : ℕ → PoolStat → Option Bytes → SlowLine

module _ (t : Tracer) where
  -- `TraceQueryStart`
  unfoldable pub trace_query_start : Context → ℕ → Bytes → Context
  trace_query_start ctx now sql =
      if lez t.slow_query (pos 0)
      then ctx
      else record ctx { query = some record { started_at = now; sql = sql } }

  unfoldable pub query_line : ℕ → Option Bytes → Option QueryData → Option SlowLine
  query_line now error none = none
  query_line now error (some d) =
      let interval = now - d.started_at in
      if ltz (pos interval) t.slow_query then none else some (slow_query interval d.sql error)

  -- `TraceQueryEnd`
  unfoldable pub trace_query_end : Context → ℕ → Option Bytes → Option SlowLine
  unfolding query_line
  trace_query_end ctx now error = query_line now error ctx.query

  -- `TraceAcquireStart`
  unfoldable pub trace_acquire_start : Context → ℕ → Context
  trace_acquire_start ctx now =
      if lez t.slow_acquire (pos 0) then ctx else record ctx { acquire = some now }

  unfoldable pub acquire_line : ℕ → PoolStat → Option Bytes → Option ℕ → Option SlowLine
  acquire_line now stat error none = none
  acquire_line now stat error (some started_at) =
      let interval = now - started_at in
      if ltz (pos interval) t.slow_acquire then none else some (slow_acquire interval stat error)

  -- `TraceAcquireEnd`, with what `pool.Stat` tells at that moment
  unfoldable pub trace_acquire_end : Context → ℕ → PoolStat → Option Bytes → Option SlowLine
  unfolding acquire_line
  trace_acquire_end ctx now stat error = acquire_line now stat error ctx.acquire
