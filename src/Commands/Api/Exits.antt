-- ===== src/Commands/Api/Exits.antt =====
-- How the process of cmd/api/main.go ends.
use wavelen.Prelude.{
  ℕ, suc, ◌≤◌, Bytes, Bool, true, false, Option, none, some, Result, ok, err, ◌==◌, nat_eq,
  if◌then◌else◌, ◌≡◌, refl, sym, ◌∙◌, subst, arith,
}
use wavelen.Errors.{Error}
use wavelen.Server.Lifecycle
use wavelen.Server.Lifecycle.{
  StartError, Stage, waiting, draining, returned, Process, Event, Move, receive, shut_down, cancel,
  happens, moves,
}
use wavelen.Server.Lifecycle.Ends.{IsFounded, Runs-IsSound}
use wavelen.Commands.Dsn.{Environment}
use wavelen.Commands.Config.{Libraries, Started, prepare}
use wavelen.Commands.Api.{
  status, ended, Handling, notified, by_default, Moment, inside, outside, Host, booting, preparing,
  alive, leaving, exited, killed, felled, dies, run, main, Runs, start, boot, prepared,
  signal_early, signal, stop_early, stop, kill, fell, serve, move, leave, quit,
}

-- What the number of signals says of a state.
unfoldable pub IsExplained : ℕ → Host → Type 0
IsExplained n booting = Unit {0}
IsExplained n (preparing c notified) = c ≡ true → 1 ≤ n
IsExplained n (preparing c by_default) = 1 ≤ n
IsExplained n (alive p notified) = Lifecycle.Runs p × (p.cancelled ≡ true → 1 ≤ n)
IsExplained n (alive p by_default) = Lifecycle.Runs p × (1 ≤ n)
IsExplained n (leaving s) = s ≡ 0 → 1 ≤ n
IsExplained n (exited s) = s ≡ 0 → 1 ≤ n
IsExplained n (killed inside) = 2 ≤ n
IsExplained n (killed outside) = 1 ≤ n
IsExplained n felled = Unit {0}

-- A clean end takes a signal, and a kill in `run` takes two.
unfoldable pub signals_needed : Host → ℕ
signals_needed (exited s) = if s == 0 then 1 else 0
signals_needed (killed inside) = 2
signals_needed (killed outside) = 1
signals_needed _ = 0

signals_needed_of : (n : ℕ) (h : Host) → IsExplained n h → signals_needed h ≤ n
unfolding signals_needed IsExplained
signals_needed_of n booting x = omega arith
signals_needed_of n (preparing c h) x = omega arith
signals_needed_of n (alive p h) x = omega arith
signals_needed_of n (leaving s) x = omega arith
signals_needed_of n (exited s) x = ground arith
signals_needed_of n (killed inside) x = x
signals_needed_of n (killed outside) x = x
signals_needed_of n felled x = omega arith

-- `Start` gave no error: its context was cancelled.
ended_zero :
    (p : Process) (r : Option StartError)
    → Lifecycle.Runs p
    → p.stage ≡ returned r
    → status (ended r) ≡ 0
    → p.cancelled ≡ true
unfolding ended status IsFounded
ended_zero p none l e z =
    subst (λ s. IsFounded p.serving p.err_serve_ch p.cancelled s) e (Runs-IsSound p l)
ended_zero p (some x) l e z = absurd (ground arith)

-- What the caller does keeps the context.
moved-cancelled : (p q : Process) → Move p q → q.cancelled ≡ p.cancelled
moved-cancelled _ _ (receive g e c) = refl
moved-cancelled _ _ (Lifecycle.done g ch) = refl
moved-cancelled _ _ (shut_down g ch c answer) = refl

-- A step inside the process.
inside_step :
    (n : ℕ) (p q : Process) (h : Handling)
    → Lifecycle.Runs q
    → q.cancelled ≡ p.cancelled
    → IsExplained n (alive p h)
    → IsExplained n (alive q h)
unfolding IsExplained
inside_step n p q notified l e (r, c) = (l, λ t. c (sym e ∙ t))
inside_step n p q by_default l e (r, c) = (l, c)

running : (n : ℕ) (p : Process) (h : Handling) → IsExplained n (alive p h) → Lifecycle.Runs p
unfolding IsExplained
running n p notified x = x.0
running n p by_default x = x.0

signalled :
    (n : ℕ) (p : Process) (h : Handling) → IsExplained n (alive p h) → p.cancelled ≡ true → 1 ≤ n
unfolding IsExplained
signalled n p notified x c = x.1 c
signalled n p by_default x c = x.1

-- A signal with the default disposition.
struck :
    (n : ℕ) (h : Host) (d : Moment)
    → IsExplained n h
    → dies h ≡ some d
    → IsExplained (suc n) (killed d)
unfolding IsExplained dies
struck n booting inside x e = cc
struck n booting outside x e = omega arith
struck n (preparing c by_default) inside x e = omega (arith, x)
struck n (preparing c by_default) outside x e = omega arith
struck n (preparing c notified) d x e = cc
struck n (alive p by_default) inside x e = omega (arith, x.1)
struck n (alive p by_default) outside x e = omega arith
struck n (alive p notified) d x e = cc
struck n (leaving s) inside x e = cc
struck n (leaving s) outside x e = omega arith
struck n (exited s) d x e = cc
struck n (killed k) d x e = cc
struck n felled d x e = cc

-- `Start` with a context that may be cancelled.
started_as : (c : Bool) → Lifecycle.Runs (record Lifecycle.started { cancelled = c })
started_as false = Lifecycle.start
started_as true =
    happens Lifecycle.started _ Lifecycle.start (cancel Lifecycle.listening none false waiting)

module _ (libs : Libraries) (env : Environment) (build : Bytes) where
  run-IsExplained :
      (n : ℕ) (c : Bool) (h : Handling) (s : Result Error (Started libs env))
      → (pool : Result Bytes (Unit {0})) → IsExplained n (preparing c h)
      → IsExplained n (run libs env build c h s pool)
  unfolding run IsExplained status
  run-IsExplained n c h (err e) pool x = λ z. ground arith
  run-IsExplained n c h (ok s) (err text) x = λ z. ground arith
  run-IsExplained n c notified (ok s) (ok _) x = (started_as c, x)
  run-IsExplained n c by_default (ok s) (ok _) x = (started_as c, x)

  main-IsExplained : (n : ℕ) (logging : Result Bytes (Unit {0})) → IsExplained n (main logging)
  unfolding main IsExplained status
  main-IsExplained n (err text) = λ z. ground arith
  main-IsExplained n (ok _) = λ c. ground arith

  module _ (logging pool : Result Bytes (Unit {0})) where
    Runs-IsExplained : (n : ℕ) (h : Host) → Runs libs env build logging pool n h → IsExplained n h
    unfolding IsExplained
    Runs-IsExplained _ _ start = tt
    Runs-IsExplained _ _ (boot n r) = main-IsExplained n logging
    Runs-IsExplained _ _ (prepared n c h r) =
        run-IsExplained n c h (prepare libs env build) pool (Runs-IsExplained n (preparing c h) r)
    Runs-IsExplained _ _ (signal_early n c r) = λ t. omega arith
    Runs-IsExplained _ _ (signal n p r) = (
      happens p _ (running n p notified (Runs-IsExplained n (alive p notified) r))
          (cancel p.serving p.err_serve_ch p.cancelled p.stage),
      λ c. omega arith,
    )
    Runs-IsExplained _ _ (stop_early n r) = Runs-IsExplained n (preparing true notified) r refl
    Runs-IsExplained _ _ (stop n p r c) =
        let x = Runs-IsExplained n (alive p notified) r in (x.0, x.1 c)
    Runs-IsExplained _ _ (kill n h d r e) = struck n h d (Runs-IsExplained n h r) e
    Runs-IsExplained _ _ (fell n h r e) = tt
    Runs-IsExplained _ _ (serve n p q h r e k) =
        let x = Runs-IsExplained n (alive p h) r in
        inside_step n p q h (happens p q (running n p h x) e) k x
    Runs-IsExplained _ _ (move n p q h r m) =
        let x = Runs-IsExplained n (alive p h) r in
        inside_step n p q h (moves p q (running n p h x) m) (moved-cancelled p q m) x
    Runs-IsExplained _ _ (leave n p h r k e) =
        let x = Runs-IsExplained n (alive p h) k in
        λ z. signalled n p h x (ended_zero p r (running n p h x) e z)
    Runs-IsExplained _ _ (quit n s r) = Runs-IsExplained n (leaving s) r

    -- Whatever the environment holds and the setup answers, with the signals SIGINT and SIGTERM
    -- counted: the process ends with status 0 only after one of them, and they kill it between
    -- `signal.NotifyContext` and the end of `run` only from the second one on. Before and after
    -- that, one kills it.
    pub main-signals_needed :
        (n : ℕ) (h : Host) → Runs libs env build logging pool n h → signals_needed h ≤ n
    main-signals_needed n h r = signals_needed_of n h (Runs-IsExplained n h r)
