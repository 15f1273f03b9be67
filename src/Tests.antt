-- ===== src/Tests.antt =====
-- Concrete runs: test data, and the theorems applied to it.
pub mod Data
mod Persisting
mod Diffing
mod Parsing
mod Scheduling
mod Tickets
mod Accounts
mod Caching
pub mod Lookups
mod Sockets
mod Rounds
mod Evicting
mod Typing
