-- ===== src/Queries.antt =====
-- The SQL statements of apps/api/internal/db, one module for each `.sql.go` file, the photos apart. A statement is a
-- function of the tables that it reads and writes.
pub mod Auth
pub mod Photos
pub mod Reports
pub mod Staff
pub mod Tenants
pub mod Worker
pub mod Objects
pub mod Orders
pub mod References
pub mod Day
pub mod Evidence
