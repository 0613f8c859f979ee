-- ===== src/Canon.antt =====
-- internal/canon: the canonical record encoding, recorded schema shapes and batch identity.
pub mod Hash
pub mod Shape
pub mod Cursor
pub mod Record
pub mod Iceberg
pub mod Columns
pub mod Descriptor
pub mod Remap
pub mod Batch
pub mod Tests
