-- ===== src/Tests/Exiting.antt =====
-- The process of cmd/api under two signals.
use wavelen.Prelude.{true, false, codes, ok, ◌≤◌, bytes_eq, bytes_beq, ◌≡◌, refl, subst}
use wavelen.Server.Lifecycle.{started, Process}
use wavelen.Commands.Dsn.{dsn}
use wavelen.Commands.Config.{
  prepare, server_config, int_from_env, duration_from_env, refuse_if, handler_config, web_fs,
  pool_config, tracer_config,
}
use wavelen.Commands.Api.{
  by_default, inside, alive, killed, dies, run, main, Runs, start, boot, prepared, signal_early,
  stop_early, kill,
}
use wavelen.Commands.Api.Exits.{signals_needed, main-signals_needed}
use wavelen.Tests.Running.{libraries, credentials}

abbrev cancelled : Process
cancelled = record started { cancelled = true }

boots :
    run libraries credentials
      (codes "dev")
      true
      by_default
      (prepare libraries credentials (codes "dev"))
      (ok tt)
    ≡ alive cancelled by_default
unfolding run prepare server_config int_from_env duration_from_env refuse_if handler_config web_fs
    pool_config tracer_config dsn bytes_beq
boots = refl

-- A signal while the settings are read, and another one in `Start`.
signalled_twice : Runs libraries credentials (codes "dev") (ok tt) (ok tt) 2 (killed inside)
unfolding main dies
signalled_twice =
    kill 1 (alive cancelled by_default) inside
      (subst (λ h. Runs libraries credentials (codes "dev") (ok tt) (ok tt) 1 h) boots
        (prepared 1 true by_default (stop_early 1 (signal_early 0 false (boot 0 start)))))
      refl

main-signals_needed_example : signals_needed (killed inside) ≤ 2
main-signals_needed_example =
    main-signals_needed libraries credentials (codes "dev") (ok tt) (ok tt) 2 (killed inside)
      signalled_twice
