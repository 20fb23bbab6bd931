-- ===== src/Domain.antt =====
-- The values that requests are turned into: nicknames, collection names and ids, icons, passwords
-- and tokens (internal/user, internal/clt, internal/icon, internal/auth).
pub mod Names
pub mod Icon
pub mod Auth
