-- ===== src/Http/Health.antt =====
-- internal/handlers/health_handler.go, and `HandleVersion` of handler.go: whether the server is
-- there, and which one.
use wavelen.Prelude.{Bytes, codes, none, some, Result, ok, err}
use wavelen.Errors.{PgError}
use wavelen.Storage.Actions.{ping}
use wavelen.Http.Message.{Response, Handler, reply, health, version}

-- `HandleLive`
unfoldable pub handle_live : Response
handle_live = reply 200 (health (codes "ok") none)

unfoldable pub ready : Result PgError (Unit {0}) → Response
ready (ok _) = reply 200 (health (codes "ok") none)
ready (err e) = reply 503 (health (codes "unavailable") (some (codes "postgres")))

-- `HandleReady`
unfoldable pub handle_ready : Handler
unfolding ping ready
handle_ready w = (ok (ready (ping w).0), (ping w).1)

-- `HandleVersion`, for the version of the build
unfoldable pub handle_version : Bytes → Response
handle_version build = reply 200 (version build)
