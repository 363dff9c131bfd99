-- ===== src/Postgres.antt =====
-- internal/postgresql: WAL segment names and log positions.
pub mod Hex
pub mod Wal
