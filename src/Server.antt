-- ===== src/Server.antt =====
-- The LDAP front end of the server: server/src/infra/ldap_handler.rs.
pub mod Session
pub mod Password
pub mod Scope
pub mod Search
pub mod Compare
pub mod Create
pub mod Handler
