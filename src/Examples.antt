-- ===== src/Examples.antt =====
-- Tests of the definitions and examples of the theorems, over a small world.
pub mod World
pub mod Postgres
pub mod Connections
pub mod Replies
pub mod Documents
pub mod Clients
pub mod Settings
pub mod Stores
pub mod Boot
pub mod Dsn
pub mod Reader
pub mod Tables
pub mod Concurrent
pub mod Identity
pub mod Collections
pub mod Unreachable
pub mod Named
