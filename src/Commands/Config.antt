-- ===== src/Commands/Config.antt =====
-- cmd/api/main.go, with the defaults of internal/server/server.go and internal/dbtrace: the
-- configuration, read from the environment before anything is started. Durations are nanoseconds.
pub mod Bounds
use wavelen.Prelude.{
  ℕ, ◌/◌, ℤ, pos, lez, ltz, Bytes, codes, Bool, true, false, not, ◌||◌, ◌==◌, bytes_eq,
  if◌then◌else◌, Result, ok, err, and_then, on_err, List, [],
}
use wavelen.Errors.{Error, config}
use wavelen.Http.Static.{dev}
use wavelen.Server.Defaults.{
  def_port, def_shutdown_timeout, write_timeout, def_user_color_quota, def_user_collection_quota,
  def_auth_token_ttl, def_auth_concur_limit, def_auth_concur_wait, def_slow_query, def_slow_acquire,
}
use wavelen.Commands.Dsn.{Environment, Urls, dsn}

-- `strconv.Atoi`, `time.ParseDuration`, `pgxpool.ParseConfig`, and whether a directory has an
-- index.html (`fs.Stat`): a value, or the text of an error.
pub record Libraries : Type 0 where
  pub urls : Urls
  pub atoi : Bytes → Result Bytes ℤ
  pub parse_duration : Bytes → Result Bytes ℤ
  pub parse_pool_config : Bytes → Result Bytes (Unit {0})
  pub has_index : Bytes → Bool

-- `server.Config`
pub record ServerConfig : Type 0 where
  pub port : ℤ
  pub shutdown_timeout : ℤ

-- `server.HandlerConfig`, without the files
pub record HandlerConfig : Type 0 where
  pub user_color_quota : ℤ
  pub user_collection_quota : ℤ
  pub auth_token_ttl : ℤ
  pub auth_concur_limit : ℤ
  pub auth_concur_wait : ℤ

-- `dbtrace.Tracer`
pub record Tracer : Type 0 where
  pub slow_query : ℤ
  pub slow_acquire : ℤ

-- Where the files of the interface come from: the binary or a directory.
pub data WebFs : Type 0 where
  embedded : WebFs
  from_disk : Bytes → WebFs

-- A check of a value: a configuration error ends the start.
unfoldable pub refuse_if : Bool → Result Error (Unit {0})
refuse_if b = if b then err config else ok tt

module _ (libs : Libraries) (env : Environment) where
  -- `intFromEnv`
  unfoldable pub int_from_env : Bytes → ℤ → Result Error ℤ
  int_from_env name def =
      if env name == [] then ok def else on_err (λ text. config) (libs.atoi (env name))

  -- `durationFromEnv`
  unfoldable pub duration_from_env : Bytes → ℤ → Result Error ℤ
  duration_from_env name def =
      if env name == [] then ok def else on_err (λ text. config) (libs.parse_duration (env name))

  -- `serverConfig`
  unfoldable pub server_config : Result Error ServerConfig
  server_config = and_then (int_from_env (codes "PORT") (pos def_port)) λ port.
      and_then (duration_from_env (codes "SHUTDOWN_TIMEOUT") (pos def_shutdown_timeout)) λ timeout.
        and_then (refuse_if (lez port (pos 0) || ltz (pos 65535) port)) λ _.
          and_then (refuse_if (lez timeout (pos 0)))
            λ _. ok record { port = port; shutdown_timeout = timeout }

  -- `handlerConfig`
  unfoldable pub handler_config : Result Error HandlerConfig
  handler_config =
      and_then (int_from_env (codes "USER_COLOR_QUOTA") (pos def_user_color_quota)) λ colors.
        and_then (refuse_if (lez colors (pos 0))) λ _.
          and_then (int_from_env (codes "USER_COLLECTION_QUOTA") (pos def_user_collection_quota))
            λ collections. and_then (refuse_if (lez collections (pos 0))) λ _.
              and_then (duration_from_env (codes "AUTH_TOKEN_TTL") (pos def_auth_token_ttl)) λ ttl.
                and_then (refuse_if (lez ttl (pos 0))) λ _.
                  and_then (int_from_env (codes "AUTH_CONCUR_LIMIT") (pos def_auth_concur_limit))
                    λ limit. and_then (refuse_if (ltz limit (pos 0))) λ _.
                      and_then
                        (duration_from_env (codes "AUTH_CONCUR_WAIT") (pos def_auth_concur_wait))
                        λ wait.
                          and_then
                            (refuse_if (ltz wait (pos 0) || lez (pos (write_timeout / 2)) wait))
                            λ _. ok record {
                              user_color_quota = colors;
                              user_collection_quota = collections;
                              auth_token_ttl = ttl;
                              auth_concur_limit = limit;
                              auth_concur_wait = wait;
                            }

  -- `tracerConfig`
  unfoldable pub tracer_config : Result Error Tracer
  tracer_config = and_then (duration_from_env (codes "DB_SLOW_QUERY") (pos def_slow_query)) λ query.
      and_then (refuse_if (ltz query (pos 0))) λ _.
        and_then (duration_from_env (codes "DB_SLOW_ACQUIRE") (pos def_slow_acquire)) λ acquire.
          and_then (refuse_if (ltz acquire (pos 0)))
            λ _. ok record { slow_query = query; slow_acquire = acquire }

  -- `webFS`, for the version of the build; the assets of the binary are there.
  unfoldable pub web_fs : Bytes → Result Error WebFs
  web_fs build =
      if env (codes "WEB_DIR") == []
      then ok embedded
      else if not (build == dev)
      then err config
      else if libs.has_index (env (codes "WEB_DIR"))
      then ok (from_disk (env (codes "WEB_DIR")))
      else err config

  -- `openPool`, up to the pool, which does not dial.
  unfoldable pub pool_config : Result Error Tracer
  pool_config =
      and_then (on_err (λ e. config) (dsn libs.urls env (codes "postgres")))
        λ url. and_then (on_err (λ text. config) (libs.parse_pool_config url)) λ _. tracer_config

  -- What the server is started with.
  pub record Started : Type 0 where
    pub server : ServerConfig
    pub handlers : HandlerConfig
    pub files : WebFs
    pub tracer : Tracer

  -- `run`, up to the start of the server
  unfoldable pub prepare : Bytes → Result Error Started
  prepare build = and_then server_config λ server. and_then handler_config λ handlers.
      and_then (web_fs build) λ files.
        and_then pool_config λ tracer.
          ok record { server = server; handlers = handlers; files = files; tracer = tracer }
