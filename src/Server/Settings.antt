-- ===== src/Server/Settings.antt =====
-- The settings of the server that internal/server/server.go starts. Durations are nanoseconds; the
-- texts of numbers (`strconv.Itoa`) are a parameter.
use wavelen.Prelude.{ℕ, ◌*◌, ◌^◌, ℤ, Bytes, codes, ◌++◌}
use wavelen.Commands.Config.{ServerConfig}
use wavelen.Server.Defaults.{second, write_timeout}

-- `http.Server`, with the fields that `Start` sets; its errors go to the log.
pub record HttpServer : Type 0 where
  pub addr : Bytes
  pub idle_timeout : ℕ
  pub read_timeout : ℕ
  pub write_timeout : ℕ
  pub max_header_bytes : ℕ

-- The line "starting server".
pub record StartLine : Type 0 where
  pub addr : Bytes
  pub read_timeout : ℕ
  pub write_timeout : ℕ
  pub idle_timeout : ℕ
  pub shutdown_timeout : ℤ

module _ (itoa : ℤ → Bytes) where
  unfoldable pub http_server : ServerConfig → HttpServer
  http_server cfg = record {
    addr = codes ":" ++ itoa cfg.port;
    idle_timeout = 60 * second;
    read_timeout = 10 * second;
    write_timeout = write_timeout;
    max_header_bytes = 2 ^ 20;
  }

  unfoldable pub start_line : ServerConfig → StartLine
  unfolding http_server
  start_line cfg =
      let srv = http_server cfg in
      record {
        addr = srv.addr;
        read_timeout = srv.read_timeout;
        write_timeout = srv.write_timeout;
        idle_timeout = srv.idle_timeout;
        shutdown_timeout = cfg.shutdown_timeout;
      }
