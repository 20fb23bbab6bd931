-- ===== src/Tests/Starting.antt =====
-- The server when its context is cancelled.
use wavelen.Prelude.{codes, true, none, some, nat_eq, refl, inl}
use wavelen.Server.Lifecycle.{listening, waiting, Process, started, cancel, Runs, start, happens}
use wavelen.Server.Lifecycle.Ends.{Returns, has_returned, Runs-Returns}

abbrev cancelled : Process
cancelled = record { serving = listening; err_serve_ch = none; cancelled = true; stage = waiting }

cancelled-reached : Runs cancelled
cancelled-reached = happens started cancelled start (cancel listening none _ waiting)

Runs-Returns_example : Returns (some (codes "deadline exceeded")) cancelled
unfolding has_returned
Runs-Returns_example =
    Runs-Returns cancelled (some (codes "deadline exceeded")) cancelled-reached refl (inl refl)
