-- ===== src/Store.antt =====
-- internal/store/sqlite.go: the local state, as tables that the SQL statements of the file change.
pub mod Rows
pub mod World
pub mod Tables
pub mod Observations
pub mod Decisions
pub mod Overrides
pub mod Verifications
pub mod Export
pub mod Invariant
