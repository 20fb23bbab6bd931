-- ===== src/Commands.antt =====
-- cmd/api, cmd/migrate and internal/dbconfig: what the program is started with.
pub mod Dsn
pub mod Config
pub mod Migrate
pub mod Api
