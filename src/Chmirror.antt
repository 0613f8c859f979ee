-- ===== src/Chmirror.antt =====
-- internal/chmirror: the optional mirror of every table in ClickHouse.
pub mod Ddl
pub mod Naming
pub mod Columns
pub mod Table
pub mod Opening
pub mod Reconcile
mod Tests
