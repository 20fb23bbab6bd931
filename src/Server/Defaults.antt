-- ===== src/Server/Defaults.antt =====
-- The constants of internal/server/server.go and internal/dbtrace/dbtrace.go. Durations are
-- nanoseconds.
use wavelen.Prelude.{ℕ, ◌*◌}

-- `time.Second` and `time.Millisecond`
abbrev pub second : ℕ
second = 1000000000

abbrev millisecond : ℕ
millisecond = 1000000

abbrev pub def_port : ℕ
def_port = 8080

abbrev pub def_shutdown_timeout : ℕ
def_shutdown_timeout = 10 * second

-- How long the writes of a response may take.
abbrev pub write_timeout : ℕ
write_timeout = 10 * second

-- Colors in one collection.
abbrev pub def_user_color_quota : ℕ
def_user_color_quota = 100

-- Collections in one account.
abbrev pub def_user_collection_quota : ℕ
def_user_collection_quota = 10

abbrev pub def_auth_token_ttl : ℕ
def_auth_token_ttl = 24 * (3600 * second)

abbrev pub def_auth_concur_limit : ℕ
def_auth_concur_limit = 3

abbrev pub def_auth_concur_wait : ℕ
def_auth_concur_wait = second

abbrev pub def_slow_query : ℕ
def_slow_query = 200 * millisecond

abbrev pub def_slow_acquire : ℕ
def_slow_acquire = 100 * millisecond
