-- ===== src/Tests.antt =====
-- The theorems applied to small tables, databases, snapshots and connections.
pub mod Tables
pub mod Databases
pub mod Commands
pub mod Snapshots
pub mod Connections
pub mod Pools
pub mod Lifetimes
pub mod Programs
pub mod Runs
