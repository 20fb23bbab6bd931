-- ===== src/Services.antt =====
-- The services: internal/colorsvc, collectionsvc, usersvc and authsvc over the storage.
pub mod ColorSvc
pub mod CollectionSvc
pub mod UserSvc
pub mod AuthSvc
pub mod Consistency
pub mod Interface
