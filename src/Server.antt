-- ===== src/Server.antt =====
-- internal/server: the gRPC handlers, which translate between messages and the services.
pub mod Disabled
pub mod Convert
pub mod Messages
pub mod Rpc
pub mod Postgres
pub mod Mongo
pub mod Redis
pub mod Health
pub mod Registry
pub mod Scalars
pub mod Dispatch
