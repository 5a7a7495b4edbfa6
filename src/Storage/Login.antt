-- ===== src/Storage/Login.antt =====
-- server/src/domain/sql_opaque_handler.rs: the logins and the registrations that read or write the
-- password file of a user in the database.
use lldap.Common.{Option, none, some, ◌++◌}
use lldap.Common.Result.{ok, err, panic, ok_or, ◌>>=◌}
use lldap.Common.Exec.{lift, pure}
use lldap.Common.Exec
use lldap.Text.{Bytes, codes}
use lldap.Domain.Error.{
  DomainError, DomainResult, authentication_error, internal_error, authentication_protocol_error,
}
use lldap.Domain.Types.{UserId}
use lldap.Domain.Handler.{BindRequest}
use lldap.Server.Password.{OpaqueClient}
use lldap.Storage.{set, not_set, UserActiveModel, Query, Statement, Database}
use lldap.Storage.Opaque.{OpaqueServer, passwords_match, sealed, opened, registration_start}

abbrev pub wrong_password : UserId → DomainError
wrong_password name = authentication_error (codes " for user '" ++ name ++ codes "'")

-- `login::ServerLoginStartResponse`
pub record LoginStartResponse : Type 0 where
  pub server_data : Bytes
  pub credential_response : Bytes

abbrev join_hash : Option (Option Bytes) → Option Bytes
join_hash none = none
join_hash (some hash) = hash

-- Any error of the comparison is a wrong password.
abbrev matched : UserId → DomainResult Unit → DomainResult Unit
matched name (ok _) = ok tt
matched name (err e) = err (wrong_password name)
matched name panic = panic

module _ (opaque : OpaqueServer) {S : Type 0} (db : Database S) where
  unfoldable pub get_password_file_for_user : UserId → Query S (Option Bytes)
  get_password_file_for_user user_id s = do
    found ← db.find_password_hash user_id s
    ok (join_hash found)

  unfoldable pub check_file : BindRequest → Option Bytes → DomainResult Unit
  unfolding passwords_match
  check_file request none = err (wrong_password request.name)
  check_file request (some password_hash) =
      matched request.name (passwords_match opaque password_hash request.password request.name)

  unfoldable pub bind : BindRequest → Query S Unit
  unfolding get_password_file_for_user check_file
  bind request s = do file ← get_password_file_for_user request.name s; check_file request file

  -- `map(deserialize).transpose()`
  abbrev pub read_file : UserId → Option Bytes → DomainResult (Option Bytes)
  read_file user_id none = ok none
  read_file user_id (some bytes) = do
    file ←
        ok_or (internal_error (codes "Corrupted password file for " ++ user_id))
          (opaque.deserialize_file bytes)
    ok (some file)

  unfoldable pub login_start : UserId → Bytes → Query S LoginStartResponse
  unfolding get_password_file_for_user sealed
  login_start user_id request s = do
    file ← get_password_file_for_user user_id s
    maybe_password_file ← read_file user_id file
    answer ←
        ok_or authentication_protocol_error (opaque.start_login maybe_password_file request user_id)
    server_data ← sealed opaque (opaque.write_login user_id answer.0)
    ok (record { server_data = server_data; credential_response = answer.1 })

  -- The row that a registration updates.
  abbrev pub password_model : UserId → Bytes → UserActiveModel
  password_model username password_file = record {
    user_id = set username;
    email = not_set;
    lowercase_email = not_set;
    display_name = not_set;
    creation_date = not_set;
    password_hash = set (some (opaque.serialize_file password_file));
    totp_secret = not_set;
    mfa_type = not_set;
    uuid = not_set;
  }

  unfoldable pub registration_finish : Bytes → Bytes → Statement S Unit
  unfolding opened
  registration_finish server_data registration_upload =
      Exec.continue (opened opaque opaque.read_registration server_data) λ username.
        db.update_user (password_model username (opaque.get_password_file registration_upload))

  unfoldable pub register_password : OpaqueClient → UserId → Bytes → Statement S Unit
  unfolding registration_start registration_finish
  register_password client username password =
      Exec.continue (ok_or authentication_protocol_error (client.start_registration password))
        λ start. Exec.continue (registration_start opaque username start.0) λ response.
          Exec.continue
            (ok_or authentication_protocol_error
              (client.finish_registration start.1 response.registration_response))
            λ upload. registration_finish response.server_data upload
