-- ===== src/Flush.antt =====
-- internal/flush: one table's flush cycle.
pub mod Retry
pub mod Worker
pub mod Cycle
pub mod Prepare
pub mod Process
