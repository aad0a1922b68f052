-- ===== src/Examples.antt =====
-- A concrete database, decimal library and set of books, and the theorems applied to them.
pub mod Bank
mod Witnesses
mod Middleware
mod Requests
mod Retries
mod Handlers
mod Repeats
mod Concurrent
mod Instances
mod Documents
mod Cash
