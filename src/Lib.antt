-- ===== src/Lib.antt =====
-- Verification of the core of LLDAP, a light LDAP server for users and groups.
--
-- Three front ends reach one backend. A connection to the LDAP server is handled by `LdapHandler`
-- (server/src/infra/ldap_handler.rs): `handle_ldap_message` takes one operation after the other, a
-- bind sets the user of the connection, and the other operations reach the database through handlers
-- that the access control (server/src/infra/access_control.rs) gives or refuses. Searches translate
-- LDAP filters into filters of the backend (server/src/domain/ldap/), which the SQL backend
-- (server/src/domain/sql_*_handler.rs) turns into conditions. The GraphQL interface
-- (server/src/infra/graphql/) asks the same access control, with the permissions of a token, and the
-- authentication service (server/src/infra/auth_service.rs) makes, checks and ends those tokens.
--
-- The files, by the code that they are about:
--   Common: `Result` with a panic as a third outcome, and `Exec`, a computation on a state that may
--     fail; lists, tests, and the signed numbers `i64` with their decimal form (Int, Int/Decimal).
--   Text: strings as lists of code points, and the parts of Rust's standard library that the
--     program calls on them, UTF-8 included.
--   Domain: server/src/domain/types.rs and auth/src/lib.rs (Types, Types/Compare), error.rs (Error),
--     handler.rs (Handler, Backend), schema.rs (Schema), deserialize.rs (Deserialize), and the
--     filters of sql_user_backend_handler.rs and sql_group_backend_handler.rs (Sql).
--   Access: server/src/infra/access_control.rs; the theorems stand in Lister, Permissions and
--     Permissions/Conferred.
--   Storage: the rows of server/src/domain/model and the statements on them; the schema
--     (sql_schema_backend_handler.rs: Schema), users (sql_user_backend_handler.rs: UserRows,
--     UserChanges, UserQueries, Users), groups (sql_group_backend_handler.rs: GroupRows,
--     GroupQueries, Groups), logins and registrations (sql_opaque_handler.rs: Opaque, Login), and
--     all of them as one backend (Backend). The theorems stand in Updates and Values (updates of
--     users), Attached and Listing (lists of users), Passwords, Registration, Completion and
--     LdapPasswords.
--   Ldap: server/src/domain/ldap/: utils.rs (Dn, Fields), user.rs (User, UserFilter), group.rs
--     (Group, GroupFilter), error.rs (Error); Filter has the data of the crate `ldap3_proto`.
--   Server: server/src/infra/ldap_handler.rs: the connection and the bind (Session), passwords
--     (Password), searches (Scope, Search), comparisons (Compare), creation of users (Create), and
--     the dispatch of messages (Handler).
--   Graphql: server/src/infra/graphql/: the objects of query.rs (Graphql), its filters (Filter) and
--     queries (Query), and mutation.rs (Attributes, Mutation, SchemaMutation, and Dispatch for the
--     choice of the method), the texts of values (Values) and a request with its token (Route, for
--     api.rs); further theorems stand in Guards, Removals, Memberships, OwnRights,
--     Filter/Totality and Query/Privileges.
--   Auth: server/src/infra/auth_service.rs (Service, Handlers, Registration) over
--     tcp_backend_handler.rs (Auth) and sql_backend_handler.rs (SqlTokens); the theorems stand in
--     Logout, Authority and Bits.
--   Examples: a small directory, and the theorems applied to requests on it.
-- A definition has the name of the function that it models; a `match` that the source nests in a
-- function is a definition of its own.
--
-- State and errors. The database is a parameter `S`, and the backend a record of operations on it
-- (Domain/Backend): a query reads the state, a command returns the next one. A handler of a message
-- maps the state of the connection, its bound user and the database, to the next one and a result. A
-- failed `assert!`, an `expect` or `unwrap` of nothing, and an index out of bounds are the outcome
-- `panic`. The asynchronous calls of a connection are made in order; between two messages others may
-- change the database.
--
-- The statements that the SQL backend runs are the fields of the record `Database`, and those on the
-- tables of tokens the fields of `TokenTables`; a transaction is one of them. A request of the web
-- server maps the state of the application, the hashes of the tokens that were logged out and the
-- database, to the next one and a response.
--
-- Parameters for code outside the repository: the record `External` (Unicode's tables of case, and
-- the crates uuid, chrono, image, base64 and bincode), `OpaqueClient` and `OpaqueServer` (the crates
-- opaque-ke and orion), `JwtLibrary` (the crate jwt, the clock and the hash function), `Database` and
-- `TokenTables` (the crate sea-orm). What the theorems assume of them are records of laws:
-- `SelectsByFilter` and `ServesSearch` of a backend, `MembershipLaws` of its memberships,
-- `TransactionLaws`, `AttributeTable`, `PasswordTable` and `SortedQueries` of the statements,
-- `SealLaws` and `OpaqueLaws` of the crates for passwords, `Exchange` of the messages of one
-- registration, `TokenLaws` and `TokenRows` of the tables of tokens, and `TextLaws` of base64 and of
-- the form of dates. Each of them has an instance among the examples. Hash sets and hash maps are lists.
--
-- Bounds. Every loop of the modelled code runs over a list, so it is structural recursion; the
-- decimal form of a number is computed with fuel above its number of digits. Numbers are unbounded
-- naturals, except that the parser of `i64` tests the bounds of 64 bits. Times and
-- durations are numbers of seconds: a token is good for 86400, a refresh token for 2592000 and a
-- reset token for 600. A hash of 64 bits is stored as the signed number with the same bits.
--
-- Not modelled: the SQL that sea-orm builds, the tables and their migrations, configuration, mail
-- and logging, the network, the routes and the HTTP form of requests and responses, the fields of
-- GraphQL objects that only read the object, the web front end and the tools. Two requests do not
-- interleave inside one handler, and the two queries of a list see one state. The text of a message
-- is kept as its template and its arguments. Of the kinds of LDAP filters and operations that the
-- program refuses without a look inside, only one case each is kept. `referral` of a reply is always
-- empty in the program and is left out.
pub mod Common
pub mod Text
pub mod Domain
pub mod Access
pub mod Storage
pub mod Ldap
pub mod Server
pub mod Graphql
pub mod Auth
pub mod Examples
