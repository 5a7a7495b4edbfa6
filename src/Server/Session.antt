-- ===== src/Server/Session.antt =====
-- server/src/infra/ldap_handler.rs: the state of a connection, the bind, and the replies.
use lldap.Common.{Option, none, some, []}
use lldap.Common.Result.{ok, err, panic}
use lldap.Text.{to_ascii_lowercase}
use lldap.Domain.Types.{External, UserId}
use lldap.Domain.Error.{DomainResult}
use lldap.Domain.Backend.{Backend}
use lldap.Access.{ValidationResults, get_permissions_for_user}
use lldap.Ldap.Error.{
  LdapError, LdapResult, LdapResultCode, Message, no_user_bound, sasl_not_supported,
}
use lldap.Ldap.Dn.{get_user_id_from_distinguished_name}
use lldap.Ldap.Fields.{LdapInfo}
use lldap.Ldap.Filter.{LdapBindRequest, LdapBindCred, LdapOp, LdapResultOp}

-- `make_search_error` and its fellows build one reply each.
abbrev pub result_op : LdapResultCode → Message → LdapResultOp
result_op code message = record { code = code; matcheddn = []; message = message }

abbrev pub make_search_error : LdapResultCode → Message → LdapOp
make_search_error code message = LdapOp.search_result_done (result_op code message)

abbrev pub make_search_success : LdapOp
make_search_success = make_search_error LdapResultCode.success Message.empty

abbrev pub make_add_error : LdapResultCode → Message → LdapOp
make_add_error code message = LdapOp.add_response (result_op code message)

abbrev pub make_extended_response : LdapResultCode → Message → LdapOp
make_extended_response code message = LdapOp.extended_response (result_op code message)

abbrev pub make_modify_response : LdapResultCode → Message → LdapOp
make_modify_response code message = LdapOp.modify_response (result_op code message)

-- The error of every operation that wants a bound user.
abbrev pub not_bound : LdapError
not_bound = record { code = LdapResultCode.insufficent_access_rights; message = no_user_bound }

-- What a bind answers, and the user that is bound after it.
pub record BindOutcome : Type 0 where
  pub code : LdapResultCode
  pub message : Message
  pub user_info : Option ValidationResults

-- `Result::ok`; a panic goes through.
abbrev pub bound_as : DomainResult ValidationResults → LdapResult BindOutcome
bound_as (ok v) =
    ok (record { code = LdapResultCode.success; message = Message.empty; user_info = some v })
bound_as (err e) =
    ok (record { code = LdapResultCode.success; message = Message.empty; user_info = none })
bound_as panic = panic

module _ ⦃lib : External⦄ {S : Type 0} where
  -- The end of `do_bind`, with the outcome of the login.
  unfoldable pub finish_bind :
      Backend S → UserId → DomainResult Unit → Option ValidationResults → S → LdapResult BindOutcome
  finish_bind backend user_id (ok _) before s =
      bound_as (get_permissions_for_user backend user_id s)
  finish_bind backend user_id (err e) before s = ok (record {
    code = LdapResultCode.invalid_credentials;
    message = Message.empty;
    user_info = before;
  })
  finish_bind backend user_id panic before s = panic

  -- A bind with the user id read from the name.
  unfoldable pub bind_as :
      Backend S
      → LdapResult UserId
      → LdapBindCred
      → Option ValidationResults
      → S
      → LdapResult BindOutcome
  unfolding finish_bind
  bind_as backend (ok user_id) (LdapBindCred.simple password) before s =
      finish_bind backend user_id (backend.bind (record { name = user_id; password = password }) s)
        before s
  bind_as backend (ok user_id) LdapBindCred.sasl before s = ok (record {
    code = LdapResultCode.unwilling_to_perform;
    message = sasl_not_supported;
    user_info = before;
  })
  bind_as backend (err e) cred before s =
      ok
        (record { code = LdapResultCode.naming_violation; message = e.message; user_info = before })
  bind_as backend panic cred before s = panic

  unfoldable pub do_bind :
      Backend S → LdapInfo → LdapBindRequest → Option ValidationResults → S → LdapResult BindOutcome
  unfolding bind_as
  do_bind backend info request before s =
      bind_as backend
        (get_user_id_from_distinguished_name (to_ascii_lowercase request.dn) info.base_dn
          info.base_dn_str)
        request.cred before s
