-- ===== src/Repository.antt =====
-- internal/repository/repository.go, over a database driver. The driver (pgx and PostgreSQL) is a
-- parameter; the tables follow migrations/, and each SQL text of the source is a `Statement` or a
-- query, that is a function from the tables to its rows.
pub mod Tables
pub mod Driver
pub mod Errors
pub mod Insert
pub mod Select
pub mod Atomic
pub mod RoundTrip
pub mod Keys
pub mod Success
pub mod Ownership
pub mod Widths
pub mod Columns
pub mod Unique
pub mod Enforced
pub mod Interface
