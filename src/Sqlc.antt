-- ===== src/Sqlc.antt =====
-- The generated query layer: db/sqlc/*.sql.go with the tables of db/migrations.
pub mod Models
pub mod Tables
pub mod Sorting
pub mod Accounts
pub mod Entries
pub mod Users
pub mod Keys
pub mod Querier
