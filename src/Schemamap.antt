-- ===== src/Schemamap.antt =====
-- internal/schemamap: turning a declaration into an Iceberg schema.
pub mod Name
