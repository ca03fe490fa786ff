-- ===== src/Sql.antt =====
-- The SQL that packages/obs-collector/src/lib/sql-db-postgres.ts hands to Postgres.
pub mod Placeholders
mod Tests
