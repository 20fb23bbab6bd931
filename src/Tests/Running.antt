-- ===== src/Tests/Running.antt =====
-- Runs of the server's surroundings and of the commands.
use wavelen.Prelude.{
  ℕ, ◌+◌, pos, codes, true, false, Option, some, none, ok, err, [], ◌∷◌, ◌++◌, length, map, find,
  get_elem?, ◌==◌, bytes_eq, if◌then◌else◌, ◌≡◌, inr, refl, arith,
}
use wavelen.Errors.{max_bytes}
use wavelen.Http.Message.{answer}
use wavelen.Http.Auth.{bearer_prefix, cut_prefix, unauthorized, vary}
use wavelen.Server.Routes.{Authed, get_me, authed, Route, routes, Wiring, Bodies, serve_authed}
use wavelen.Server.Routes.Guarded.{IsPersonal, IsAnonymous, personal_lem}
use wavelen.Server.Middleware.{
  or_else, is_final, is_informational, Writer, other, Program, panics, request_id,
}
use wavelen.Server.Middleware.Recorded.{IsFinal, Settled, ended, request_id-Settled}
use wavelen.Server.Limit.{moved, arrived, running, idle, Runs, start, then_, arrive, acquire}
use wavelen.Server.Limit.Progress.{Steps, served_of, Runs-served_of}
use wavelen.Commands.Dsn.{Urls, Environment}
use wavelen.Commands.Config.{Libraries, prepare}
use wavelen.Commands.Config.Bounds.{Checked, IsReady, prepare-IsReady}
use wavelen.Tests.{config, hashing, request, world}

abbrev wiring : Wiring
wiring = record { colors = config; collection_quota = 10; hashing = hashing; compact = λ t. [] }

abbrev bodies : Bodies
bodies = record { color = ok []; created = err max_bytes; updated = err max_bytes }

-- `GET /api/v1/me`
abbrev me : Route
me = record { method = codes "GET"; path = codes "/api/v1/me"; endpoint = authed get_me }

seventh : get_elem? routes 7 ≡ some me
unfolding routes
seventh = refl

me-IsPersonal : IsPersonal me
unfolding cut_prefix
me-IsPersonal = refl

stranger-IsAnonymous : IsAnonymous wiring (request (bearer_prefix ++ codes "token")) world
unfolding find
stranger-IsAnonymous = inr (b't', codes "oken", refl, refl, refl)

personal_lem_example :
    (a : Authed) × (me.endpoint ≡ authed a)
    × (answer (serve_authed wiring bodies a (request (bearer_prefix ++ codes "token"))) world
        ≡ (vary unauthorized, world))
personal_lem_example =
    personal_lem wiring bodies (request (bearer_prefix ++ codes "token")) world 7 me seventh
      me-IsPersonal stranger-IsAnonymous

not_final : (c : ℕ) → is_informational c ≡ true → is_final c ≡ false
not_final c h = ground arith

-- A writer that keeps the final status and counts the bytes.
abbrev writer : Writer
unfolding or_else
writer = record {
  W = Option ℕ × ℕ;
  fresh = (none, 0);
  sent = λ w. w.0;
  body_bytes = λ w. w.1;
  set_header = λ k v w. w;
  write_header = λ c w. (if is_final c then or_else w.0 c else w.0, w.1);
  write = λ b w. (length b, (or_else w.0 200, w.1 + length b));
  sent_fresh = refl;
  bytes_fresh = refl;
  sent-set_header = λ k v w. refl;
  bytes-set_header = λ k v w. refl;
  sent-write_header = λ c w final. rw final refl;
  sent-informational = λ c w h. rw (not_final c h) refl;
  bytes-write_header = λ c w. refl;
  sent-write = λ b w. refl;
  bytes-write = λ b w. refl;
}

abbrev broken : Program
broken = panics (other (codes "index out of range"))

request_id-Settled_example :
    Settled writer
      (ended writer (codes "id") [] broken).0
      (ended writer (codes "id") [] broken).1.inner
      (request_id writer (codes "id") [] broken writer.fresh)
unfolding IsFinal
request_id-Settled_example = request_id-Settled writer (codes "id") [] broken tt

one_in : Runs 1 (moved 1 [] running [])
unfolding moved
one_in =
    then_ (moved 0 [] arrived []) (moved 1 [] running [])
      (then_ idle (moved 0 [] arrived []) (start (omega arith)) (arrive 0 []))
      (acquire 0 [] [] refl)

Runs-served_of_example :
    Steps 1
      (moved 1 [] running [])
      (record { taken = 0; requests = map served_of (moved 1 [] running []).requests })
Runs-served_of_example = Runs-served_of 1 (omega arith) (moved 1 [] running []) one_in

abbrev urls : Urls
urls = record {
  join_host_port = λ host port. host ++ b':' ∷ port;
  encode = λ name value. name ++ b'=' ∷ value;
  render = λ url. url.scheme ++ url.host ++ url.path;
}

-- A number is its count of digits.
abbrev pub libraries : Libraries
libraries = record {
  urls = urls;
  atoi = λ s. ok (pos (length s));
  parse_duration = λ s. ok (pos (length s));
  parse_pool_config = λ s. ok tt;
  has_index = λ s. true;
}

-- Only the credentials are set.
abbrev pub credentials : Environment
credentials name =
    if name == codes "POSTGRES_USER"
    then codes "wavelen"
    else if name == codes "POSTGRES_PASSWORD"
    then codes "secret"
    else []

prepare-IsReady_example :
    Checked
      (IsReady libraries credentials (codes "dev"))
      (prepare libraries credentials (codes "dev"))
prepare-IsReady_example = prepare-IsReady libraries credentials (codes "dev")
