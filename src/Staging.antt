-- ===== src/Staging.antt =====
-- internal/staging: the local database.
pub mod Spool
pub mod Store
pub mod Index
