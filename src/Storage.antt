-- ===== src/Storage.antt =====
-- internal/storage and migrations: the tables, the statements of the repositories and
-- transactions. Each method of `Postgres` is an action on a `World`.
pub mod Schema
pub mod Actions
pub mod Users
pub mod Tokens
pub mod Cascade
pub mod Collections
pub mod Faults
pub mod Statements
pub mod Methods
pub mod Promises
pub mod Order
pub mod Colors
pub mod Export
pub mod Interface
