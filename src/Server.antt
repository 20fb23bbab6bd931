-- ===== src/Server.antt =====
-- internal/server: what stands around the handlers.
pub mod Defaults
pub mod Limit
pub mod Contexts
pub mod Lifecycle
pub mod Middleware
pub mod Routes
pub mod Settings
pub mod Tracing
