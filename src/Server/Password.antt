-- ===== src/Server/Password.antt =====
-- server/src/infra/ldap_handler.rs: the changes of a password, by the extended operation and by a
-- modification.
pub mod Authority
pub mod Panics
pub mod Allowed
use lldap.Common.{
  Bool, true, false, not, ◌&&◌, ◌||◌, Option, none, some, List, [], ◌∷◌, any, length, if◌then◌else◌,
}
use lldap.Common.Result.{Result, ok, err, panic, map_err, ok_or}
use lldap.Common.Exec.{Exec, pure, raise, crash, lift, ask, on_error, for_each, ◌>>=◌, ◌>>◌}
use lldap.Text.{Str, Bytes, codes, ◌==◌, to_ascii_lowercase}
use lldap.Text.Utf8.{into_bytes}
use lldap.Domain.Types.{External, UserId, GroupDetails}
use lldap.Domain.Types.Compare.{eq_ignore_case}
use lldap.Domain.Error.{DomainError}
use lldap.Domain.Backend.{Backend}
use lldap.Access.{ValidationResults, can_change_password, get_readable_handler}
use lldap.Ldap.Error.{
  LdapError, LdapResult, LdapResultCode, Message, user_groups_failed, cannot_modify_password,
  password_change_failed, opaque_client_failed, invalid_username, missing_user_or_password,
  unsupported_extended_operation, LdapModifyType, unsupported_modification, wrong_number_of_values,
}
use lldap.Ldap.Dn.{get_user_id_from_distinguished_name}
use lldap.Ldap.Fields.{LdapInfo}
use lldap.Ldap.Filter.{
  LdapModify, LdapModifyRequest, LdapPasswordModifyRequest, LdapExtendedRequest, LdapOp,
}
use lldap.Server.Session.{not_bound, make_extended_response, make_modify_response}

-- The client side of OPAQUE registration (auth/src/opaque.rs over the crate opaque-ke), for one
-- choice of its random bytes. The message and the state stay bytes.
pub record OpaqueClient : Type 0 where
  pub start_registration : Bytes → Option (Bytes × Bytes)
  pub finish_registration : Bytes → Bytes → Option Bytes

pub data ChangePasswordError : Type 0 where
  client_failed : ChangePasswordError
  backend_failed : DomainError → ChangePasswordError

abbrev pub password_error : ChangePasswordError → LdapError
password_error client_failed = record {
  code = LdapResultCode.other;
  message = opaque_client_failed;
}
password_error (backend_failed e) = record {
  code = LdapResultCode.other;
  message = password_change_failed e;
}

abbrev pub groups_error : DomainError → LdapError
groups_error e = record { code = LdapResultCode.operations_error; message = user_groups_failed e }

abbrev pub is_replace : LdapModifyType → Bool
is_replace LdapModifyType.replace = true
is_replace _ = false

module _ {S : Type 0} where
  unfoldable pub change_password :
      OpaqueClient → Backend S → UserId → Bytes → Exec S ChangePasswordError Unit
  change_password client backend user password = do
    (message, state) ← lift (ok_or client_failed (client.start_registration password))
    response ← on_error backend_failed (ask (backend.registration_start user message))
    upload ←
        lift (ok_or client_failed (client.finish_registration state response.registration_response))
    on_error backend_failed (backend.registration_finish response.server_data upload)

-- The user named by the request; another name is reported as an invalid user name.
abbrev pub user_of_dn : LdapInfo → Str → LdapResult UserId
user_of_dn info dn =
    map_err
      (λ e. record {
        code = LdapResultCode.invalid_dn_syntax;
        message = invalid_username e.message;
      })
      (get_user_id_from_distinguished_name dn info.base_dn info.base_dn_str)

abbrev pub denied : ValidationResults → UserId → LdapError
denied credentials uid = record {
  code = LdapResultCode.insufficent_access_rights;
  message = cannot_modify_password credentials.user uid;
}

module _ ⦃lib : External⦄ {S : Type 0} where
  -- Whether the user is in the group of administrators; a handler that may not read it panics.
  unfoldable pub read_user_is_admin : Backend S → ValidationResults → UserId → Exec S LdapError Bool
  read_user_is_admin backend credentials uid = elim (get_readable_handler backend credentials uid) [
    | none ↦ crash
    | some handler ↦ do
      groups ← on_error groups_error (ask (handler.get_user_groups uid))
      pure (any (λ (g : GroupDetails). eq_ignore_case g.display_name (codes "lldap_admin")) groups)
  ]

  unfoldable pub set_password_as :
      OpaqueClient
      → Backend S
      → LdapInfo
      → ValidationResults
      → Str
      → Str
      → Exec S LdapError (List LdapOp)
  unfolding read_user_is_admin change_password
  set_password_as client backend info credentials user password = do
    uid ← lift (user_of_dn info user)
    user_is_admin ← read_user_is_admin backend credentials uid
    if not (can_change_password credentials uid user_is_admin)
        then raise (denied credentials uid)
        else do
          on_error password_error (change_password client backend uid (into_bytes password))
          pure (make_extended_response LdapResultCode.success Message.empty ∷ [])

  -- The `match` on the two optional fields of the request.
  unfoldable pub modify_fields :
      OpaqueClient
      → Backend S
      → LdapInfo
      → ValidationResults
      → Option Str
      → Option Str
      → Exec S LdapError (List LdapOp)
  unfolding set_password_as
  modify_fields client backend info credentials (some user) (some password) =
      set_password_as client backend info credentials user password
  modify_fields client backend info credentials _ _ =
      raise
        (record { code = LdapResultCode.constraint_violation; message = missing_user_or_password })

  unfoldable pub do_password_modification :
      OpaqueClient
      → Backend S
      → LdapInfo
      → Option ValidationResults
      → LdapPasswordModifyRequest
      → Exec S LdapError (List LdapOp)
  unfolding modify_fields
  do_password_modification client backend info user_info request = do
    credentials ← lift (ok_or not_bound user_info)
    modify_fields client backend info credentials request.user_identity request.new_password

  unfoldable pub handle_modify_change :
      OpaqueClient
      → Backend S
      → UserId
      → ValidationResults
      → Bool
      → LdapModify
      → Exec S LdapError Unit
  unfolding change_password
  handle_modify_change client backend user_id credentials user_is_admin change =
      if not (to_ascii_lowercase change.modification.atype == codes "userpassword")
        || not (is_replace change.operation)
      then raise (record {
        code = LdapResultCode.unwilling_to_perform;
        message = unsupported_modification change.operation change.modification.atype;
      })
      else if not (can_change_password credentials user_id user_is_admin)
      then raise (denied credentials user_id)
      else elim change.modification.vals [
        | [] ↦ raise (record {
          code = LdapResultCode.invalid_attribute_syntax;
          message = wrong_number_of_values 0;
        })
        | value ∷ more ↦ elim more [
          | [] ↦ on_error password_error (change_password client backend user_id value)
          | v ∷ vs ↦ raise (record {
            code = LdapResultCode.invalid_attribute_syntax;
            message = wrong_number_of_values (length change.modification.vals);
          })
        ]
      ]

  unfoldable pub handle_modify_request :
      OpaqueClient
      → Backend S
      → LdapInfo
      → Option ValidationResults
      → LdapModifyRequest
      → Exec S LdapError (List LdapOp)
  unfolding read_user_is_admin handle_modify_change for_each
  handle_modify_request client backend info user_info request = do
    credentials ← lift (ok_or not_bound user_info)
    uid ← lift (user_of_dn info request.dn)
    user_is_admin ← read_user_is_admin backend credentials uid
    for_each (handle_modify_change client backend uid credentials user_is_admin) request.changes
    pure (make_modify_response LdapResultCode.success Message.empty ∷ [])
