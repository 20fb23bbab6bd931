-- ===== src/Server/Lifecycle/Ends.antt =====
-- How `Start` (internal/server/server.go) ends.
use wavelen.Prelude.{
  Bytes, Bool, true, false, Option, some, none, ◌≡◌, ◌≢◌, ◌⊎◌, refl, inl, inr, arith,
}
use wavelen.Server.Lifecycle.{
  serve_failed, shutdown_incomplete, Serving, listening, server_closed, unexpected, Stage, waiting,
  draining, returned, Process, sent, after_shutdown, Event, serve_fails, serve_closes, cancel, Move,
  receive, done, shut_down, Runs, start, happens, moves,
}

-- What a stage says of the goroutine, its channel and the context.
unfoldable pub IsFounded : Serving → Option Bytes → Bool → Stage → Type 0
-- at the `select`, the channel has what the goroutine sent, and the server was not closed
IsFounded g ch c waiting = (ch ≡ sent g) × (g ≢ server_closed)
IsFounded g ch c draining = c ≡ true
IsFounded g ch c (returned none) = c ≡ true
IsFounded g ch c (returned (some (serve_failed e))) = g ≡ unexpected e
IsFounded g ch c (returned (some (shutdown_incomplete e))) = c ≡ true

abbrev pub IsSound : Process → Type 0
IsSound p = IsFounded p.serving p.err_serve_ch p.cancelled p.stage

-- A result after the shutdown says that the context was cancelled.
returned-IsSound :
    (g : Serving) (ch : Option Bytes) (c : Bool) (answer : Option Bytes)
    → c ≡ true
    → IsFounded g ch c (after_shutdown answer)
unfolding IsFounded after_shutdown
returned-IsSound g ch c none h = h
returned-IsSound g ch c (some e) h = h

sent-Received : (g : Serving) (e : Bytes) → some e ≡ sent g → g ≡ unexpected e
unfolding sent
sent-Received listening e h = absurd (ground arith)
sent-Received server_closed e h = absurd (ground arith)
sent-Received (unexpected x) e h = ground arith

-- Where the goroutine was listening, its end changes nothing past the `select`.
ended-IsSound :
    (g : Serving) (ch : Option Bytes) (c : Bool) (s : Stage)
    → s ≢ waiting
    → IsFounded listening none c s
    → IsFounded g ch c s
unfolding IsFounded
ended-IsSound g ch c waiting past h = absurd (past refl)
ended-IsSound g ch c draining past h = h
ended-IsSound g ch c (returned none) past h = h
ended-IsSound g ch c (returned (some (serve_failed x))) past h = absurd (ground arith)
ended-IsSound g ch c (returned (some (shutdown_incomplete x))) past h = h

failed-IsSound :
    (e : Bytes) (c : Bool) (s : Stage)
    → IsFounded listening none c s
    → IsFounded (unexpected e) (sent (unexpected e)) c s
unfolding IsFounded
failed-IsSound e c waiting h = (refl, (λ q. ground arith))
failed-IsSound e c draining h =
    ended-IsSound (unexpected e) (sent (unexpected e)) c draining (λ q. ground arith) h
failed-IsSound e c (returned r) h =
    ended-IsSound (unexpected e) (sent (unexpected e)) c (returned r) (λ q. ground arith) h

cancelled-IsSound :
    (g : Serving) (ch : Option Bytes) (c : Bool) (s : Stage)
    → IsFounded g ch c s
    → IsFounded g ch true s
unfolding IsFounded
cancelled-IsSound g ch c waiting h = h
cancelled-IsSound g ch c draining h = refl
cancelled-IsSound g ch c (returned none) h = refl
cancelled-IsSound g ch c (returned (some (serve_failed e))) h = h
cancelled-IsSound g ch c (returned (some (shutdown_incomplete e))) h = refl

Event-IsSound : (p q : Process) → Event p q → IsSound p → IsSound q
unfolding IsFounded sent
Event-IsSound _ _ (serve_fails e c s) h = failed-IsSound e c s h
Event-IsSound _ _ (serve_closes c s past) h = ended-IsSound server_closed none c s past h
Event-IsSound _ _ (cancel g ch c s) h = cancelled-IsSound g ch c s h

Move-IsSound : (p q : Process) → Move p q → IsSound p → IsSound q
unfolding IsFounded
Move-IsSound _ _ (receive g e c) (ch, open_) = sent-Received g e ch
Move-IsSound _ _ (done g ch) h = refl
Move-IsSound _ _ (shut_down g ch c answer) h = returned-IsSound g ch c answer h

pub Runs-IsSound : (p : Process) → Runs p → IsSound p
unfolding IsFounded sent
Runs-IsSound _ start = (refl, (λ q. ground arith))
Runs-IsSound _ (happens p q r s) = Event-IsSound p q s (Runs-IsSound p r)
Runs-IsSound _ (moves p q r s) = Move-IsSound p q s (Runs-IsSound p r)

-- Some moves of the caller, one after another.
pub data Later : Process → Process → Type 0 where
  stay : (p : Process) → Later p p
  step : (p q r : Process) → Move p q → Later q r → Later p r

-- The context is cancelled, or the server failed.
abbrev pub process : Serving → Option Bytes → Bool → Stage → Process
process g ch c s = record { serving = g; err_serve_ch = ch; cancelled = c; stage = s }

-- The context is cancelled, or the server failed.
abbrev pub IsWoken : Process → Type 0
IsWoken p = (p.cancelled ≡ true) ⊎ ((e : Bytes) × (p.serving ≡ unexpected e))

-- Some moves on, the caller is back: with what `Shutdown` answers, after the context was cancelled,
-- or with the error of the server that failed.
abbrev pub Returns : Option Bytes → Process → Type 0
Returns answer p =
    (q : Process) × Later p q
    × (((q.stage ≡ after_shutdown answer) × (q.cancelled ≡ true))
        ⊎ ((e : Bytes) × (q.stage ≡ returned (some (serve_failed e))) × (q.serving ≡ unexpected e)))

unfoldable pub has_returned : Stage → Bool
has_returned waiting = false
has_returned draining = false
has_returned (returned r) = true

shutdown-Returns :
    (g : Serving) (ch : Option Bytes) (c : Bool) (answer : Option Bytes)
    → c ≡ true
    → Returns answer (process g ch c draining)
shutdown-Returns g ch c answer h = (
  process g ch c (after_shutdown answer),
  step _ _ _ (shut_down g ch c answer) (stay _),
  inl (refl, h),
)

woken-Returns :
    (g : Serving) (ch : Option Bytes) (c : Bool) (s : Stage) (answer : Option Bytes)
    → has_returned s ≡ false
    → IsFounded g ch c s
    → IsWoken (process g ch c s)
    → Returns answer (process g ch c s)
unfolding IsFounded sent has_returned
woken-Returns g ch c (returned r) answer o h w = absurd (ground arith)
woken-Returns g ch c draining answer o h w = shutdown-Returns g ch c answer h
woken-Returns g ch true waiting answer o h w = (
  process g ch true (after_shutdown answer),
  step _ _ _ (done g ch) (step _ _ _ (shut_down g ch true answer) (stay _)),
  inl (refl, refl),
)
woken-Returns g ch false waiting answer o h (inl t) = absurd (ground arith)
woken-Returns (unexpected x) (some e) false waiting answer o (h, apart) (inr w) = (
  process (unexpected x) none false (returned (some (serve_failed e))),
  step _ _ _ (receive (unexpected x) e false) (stay _),
  inr (e, refl, ground arith),
)
woken-Returns (unexpected x) none false waiting answer o (h, apart) (inr w) = absurd (ground arith)
woken-Returns listening ch false waiting answer o h (inr (e, w)) = absurd (ground arith)
woken-Returns server_closed ch false waiting answer o h (inr (e, w)) = absurd (ground arith)

pub Runs-Returns :
    (p : Process) (answer : Option Bytes)
    → Runs p
    → has_returned p.stage ≡ false
    → IsWoken p
    → Returns answer p
Runs-Returns p answer r o w =
    woken-Returns p.serving p.err_serve_ch p.cancelled p.stage answer o (Runs-IsSound p r) w
