-- ===== src/Server/Limit/Replies.antt =====
-- `limitConcurrent` of internal/server/limit.go: when there is a cap, and what a request is answered.
use wavelen.Prelude.{ℕ, ℤ, pos, negsuc, codes, Option, some, none, [], ◌∷◌, leb, if◌then◌else◌}
use wavelen.Http.Message.{Response, message}
use wavelen.Server.Limit.{Phase, arrived, waiting, running, served, refused, gone}

-- The cap; none where the handler is called directly.
unfoldable cap_of : ℤ → Option ℕ
cap_of (pos limit) = if leb 1 limit then some limit else none
cap_of (negsuc n) = none

-- `tooManyRequests`
abbrev too_many_requests : Response
too_many_requests = record {
  status = 429;
  headers = (codes "Retry-After", codes "2") ∷ [];
  body = message (codes "server is busy, retry later");
}

-- What is written for a request whose handler answers `next`.
unfoldable written : Response → Phase → Option Response
written next arrived = none
written next waiting = none
written next running = none
written next served = some next
written next refused = some too_many_requests
written next gone = none
