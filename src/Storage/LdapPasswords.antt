-- ===== src/Storage/LdapPasswords.antt =====
-- A password changed over LDAP (server/src/infra/ldap_handler.rs) in the database of the backend
-- (server/src/domain/sql_opaque_handler.rs), and the binds after that.
use lldap.Common.{◌≡◌, if◌then◌else◌}
use lldap.Common.Result.{ok, err, map_err, ok_or, ok_or-eq-ok, map_err-eq-ok}
use lldap.Common.Exec.{continue-eq-ok, on_error-returned}
use lldap.Text.{Str, Bytes, ◌==◌}
use lldap.Text.Utf8.{into_bytes}
use lldap.Domain.Types.{External, NaiveDateTime, UserId}
use lldap.Server.Password.{OpaqueClient, client_failed, backend_failed, change_password}
use lldap.Storage.{Database}
use lldap.Storage.Opaque.{OpaqueServer, registration_start}
use lldap.Storage.Login.{registration_finish, wrong_password}
use lldap.Storage.Passwords.{SealLaws, OpaqueLaws, PasswordTable}
use lldap.Storage.Registration.{Writes, registration-Writes, Writes-decides}
use lldap.Storage.Backend.{sql_backend}

module _ ⦃lib : External⦄ (opaque : OpaqueServer) (client : OpaqueClient) (seal : SealLaws opaque)
    (laws : OpaqueLaws opaque client) {S : Type 0} (db : Database S) where
  change_password-Writes :
      (now : NaiveDateTime) (u : UserId) (p : Bytes) (s t : S)
      → change_password client (sql_backend opaque db now) u p s ≡ (ok tt, t)
      → Writes opaque client seal laws db u p s t
  unfolding change_password sql_backend
  change_password-Writes now u p s t h =
      let (m, em, h1) = continue-eq-ok (ok_or client_failed (client.start_registration p)) _ s h in
      let (r, er, h2) =
        continue-eq-ok (map_err backend_failed (registration_start opaque u m.0)) _ s h1 in
      let (up, eu, h3) =
        continue-eq-ok
          (ok_or client_failed (client.finish_registration m.1 r.registration_response)) _ s h2 in
      registration-Writes opaque client seal laws db u p m.0 m.1 up r s t (ok_or-eq-ok _ _ em)
        (map_err-eq-ok _ _ er) (ok_or-eq-ok _ _ eu)
        (on_error-returned backend_failed (registration_finish opaque db r.server_data up) s t tt
          h3)

  -- Over a table of password files and for crates that keep what OPAQUE and the sealing promise: after
  -- the LDAP front end has changed a password by the SQL backend, a bind of that user succeeds with
  -- the new password, and fails as a wrong password with every other text.
  pub change_password-decides :
      (now : NaiveDateTime) (u : UserId) (p : Bytes) (q : Str) (s t : S)
      → PasswordTable db
      → change_password client (sql_backend opaque db now) u p s ≡ (ok tt, t)
      → (sql_backend opaque db now).bind (record { name = u; password = q }) t
        ≡ (if into_bytes q == p then ok tt else err (wrong_password u))
  unfolding sql_backend
  change_password-decides now u p q s t table h =
      Writes-decides opaque client seal laws db u p q s t table
        (change_password-Writes now u p s t h)
