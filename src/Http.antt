-- ===== src/Http.antt =====
-- internal/handlers and internal/server: from a request to a response.
pub mod Message
pub mod Cursor
pub mod Colors
pub mod Collections
pub mod Users
pub mod Tokens
pub mod Auth
pub mod Catalog
pub mod Harmony
pub mod Info
pub mod Health
pub mod Static
pub mod Wire
pub mod Answers
pub mod Logged
