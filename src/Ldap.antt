-- ===== src/Ldap.antt =====
-- What the LDAP side shares (server/src/domain/ldap).
pub mod Error
pub mod Dn
pub mod Fields
pub mod Filter
pub mod User
pub mod UserFilter
pub mod Group
pub mod GroupFilter
