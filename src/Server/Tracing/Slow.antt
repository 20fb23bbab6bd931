-- ===== src/Server/Tracing/Slow.antt =====
-- What internal/dbtrace/dbtrace.go logs of a statement and of a wait.
use wavelen.Prelude.{
  ℕ, ◌-◌, ◌+◌, ℤ, pos, lez, Bytes, Bool, not, ◌&&◌, Option, none, some, ◌≡◌, if◌then◌else◌, arith,
}
use wavelen.Commands.Config.{Tracer}
use wavelen.Server.Tracing.{
  Context, PoolStat, slow_query, slow_acquire, trace_query_start, trace_query_end, query_line,
  trace_acquire_start, trace_acquire_end, acquire_line,
}

-- Lines are on, and the time is up to the threshold.
abbrev pub is_slow : ℤ → ℕ → Bool
is_slow threshold spent = not (lez threshold (pos 0)) && lez threshold (pos spent)

module _ (t : Tracer) (start spent : ℕ) (stat : PoolStat) (error : Option Bytes) where
  elapsed : (start + spent) - start ≡ spent
  elapsed = omega arith

  -- A statement that is traced from its start to its end, in a context with no other one, is logged
  -- with its time, its text and its error just when lines are on and it took at least the threshold;
  -- and likewise a wait for a connection, with
  -- the statistics of the pool.
  pub tracing_lem :
      (ctx : Context) (sql : Bytes)
      → ctx.query ≡ none
      → ctx.acquire ≡ none
      → (trace_query_end t (trace_query_start t ctx start sql) (start + spent) error
          ≡ (if is_slow t.slow_query spent then some (slow_query spent sql error) else none))
        × (trace_acquire_end t (trace_acquire_start t ctx start) (start + spent) stat error
            ≡ (if is_slow t.slow_acquire spent then some (slow_acquire spent stat error) else none))
  unfolding trace_query_end trace_query_start query_line trace_acquire_end trace_acquire_start
      acquire_line
  tracing_lem ctx sql no_query no_acquire =
      (ground (arith, elapsed, no_query), ground (arith, elapsed, no_acquire))
