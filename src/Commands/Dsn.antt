-- ===== src/Commands/Dsn.antt =====
-- internal/dbconfig/dsn.go: the connection string of the database. The package net/url is not
-- under the repository: `Urls`.
use wavelen.Prelude.{Bytes, codes, ◌||◌, [], ◌∷◌, ◌==◌, bytes_eq, if◌then◌else◌, Result, ok, err}
use wavelen.Errors.{Error, missing_creds}

-- `os.Getenv`: the empty text where a variable is not set.
abbrev pub Environment : Type 0
Environment = Bytes → Bytes

-- `url.URL`, as far as it is filled in.
pub record Url : Type 0 where
  pub scheme : Bytes
  pub user : Bytes
  pub password : Bytes
  pub host : Bytes
  pub path : Bytes
  pub raw_query : Bytes

-- `net.JoinHostPort`, `url.Values.Encode` of one value, and `url.URL.String`.
pub record Urls : Type 0 where
  pub join_host_port : Bytes → Bytes → Bytes
  pub encode : Bytes → Bytes → Bytes
  pub render : Url → Bytes

module _ (urls : Urls) (env : Environment) where
  -- `stringFromEnv`
  unfoldable pub string_from_env : Bytes → Bytes → Bytes
  string_from_env name def = if env name == [] then def else env name

  unfoldable pub url_of : Bytes → Url
  url_of scheme = record {
    scheme = scheme;
    user = env (codes "POSTGRES_USER");
    password = env (codes "POSTGRES_PASSWORD");
    host =
        urls.join_host_port (string_from_env (codes "POSTGRES_HOST") (codes "localhost"))
          (string_from_env (codes "POSTGRES_PORT") (codes "5433"));
    path = b'/' ∷ string_from_env (codes "POSTGRES_DB") (codes "wavelen");
    raw_query =
        urls.encode (codes "sslmode")
          (string_from_env (codes "POSTGRES_SSLMODE") (codes "disable"));
  }

  -- `DSN`
  unfoldable pub dsn : Bytes → Result Error Bytes
  unfolding url_of
  dsn scheme =
      if env (codes "POSTGRES_USER") == [] || env (codes "POSTGRES_PASSWORD") == []
      then err missing_creds
      else ok (urls.render (url_of scheme))
