-- ===== src/Domain.antt =====
-- The domain of the server (server/src/domain), a module for each source file.
pub mod Error
pub mod Types
pub mod Handler
pub mod Schema
pub mod Backend
pub mod Sql
pub mod Deserialize
