-- ===== src/Server/Handler.antt =====
-- server/src/infra/ldap_handler.rs: the dispatch of the operations of a connection.
pub mod Unbound
pub mod Bound
pub mod Answers
pub mod Privileges
use lldap.Common.{Bool, true, false, Option, none, some, List, [], ◌∷◌}
use lldap.Common.Result.{Result, ok, err, panic, ◌>>=◌, unwrap_or_else, map}
use lldap.Common.Exec.{Exec, ask}
use lldap.Text.{Str, to_ascii_lowercase}
use lldap.Domain.Types.{External, AttributeName}
use lldap.Domain.Backend.{Backend}
use lldap.Access.{ValidationResults}
use lldap.Ldap.Error.{
  LdapError, LdapResult, LdapResultCode, unsupported_extended_operation, unsupported_operation,
}
use lldap.Ldap.Dn.{DnParts, parse_distinguished_name}
use lldap.Ldap.Fields.{LdapInfo}
use lldap.Ldap.Filter.{
  LdapExtendedRequest, LdapPasswordModifyRequest, LdapModifyRequest, LdapBindRequest, LdapOp,
}
use lldap.Server.Session.{
  BindOutcome, do_bind, result_op, make_search_error, make_add_error, make_modify_response,
  make_extended_response,
}
use lldap.Server.Password.{OpaqueClient, do_password_modification, handle_modify_request}
use lldap.Server.Search.{do_search_or_dse}
use lldap.Server.Compare.{do_compare}
use lldap.Server.Create.{do_create_user}

-- The state that the operations of a connection change: its user, and the database.
pub record LdapHandler (S : Type 0) : Type 0 where
  pub user_info : Option ValidationResults
  pub db : S

-- `unwrap_or_else(|_| panic!(..))`
abbrev pub expect_base : LdapResult DnParts → LdapResult DnParts
expect_base (ok parts) = ok parts
expect_base (err e) = panic
expect_base panic = panic

-- The constants of a handler, from the configuration.
unfoldable pub new_info : Str → List AttributeName → List AttributeName → LdapResult LdapInfo
new_info ldap_base_dn ignored_user ignored_group =
    expect_base (parse_distinguished_name (to_ascii_lowercase ldap_base_dn)) >>= λ base_dn.
    ok (record {
      base_dn = base_dn;
      base_dn_str = to_ascii_lowercase ldap_base_dn;
      ignored_user_attributes = ignored_user;
      ignored_group_attributes = ignored_group;
    })

abbrev pub new : {S : Type 0} → S → LdapHandler S
new db = record { user_info = none; db = db }

-- What becomes of a message: replies, none for an unbind; an error is always turned into a reply.
abbrev pub Handled : Type 0 → Type 0
Handled S = Exec (LdapHandler S) LdapError (Option (List LdapOp))

module _ {S : Type 0} where
  -- The replies of an operation on the database, its error turned into a reply.
  abbrev pub replies : (LdapError → List LdapOp) → Exec S LdapError (List LdapOp) → Handled S
  replies f m h =
      (map some (unwrap_or_else f (m h.db).0), record { user_info = h.user_info; db = (m h.db).1 })

  abbrev pub bind_replies : LdapResult BindOutcome → Handled S
  bind_replies (ok o) h = (
    ok (some (LdapOp.bind_response (result_op o.code o.message) ∷ [])),
    record { user_info = o.user_info; db = h.db },
  )
  bind_replies (err e) h = (err e, h)
  bind_replies panic h = (panic, h)

module _ ⦃lib : External⦄ {S : Type 0} where
  -- The errors of both are replies; `none` is what `LdapPasswordModifyRequest::try_from` refuses.
  unfoldable pub do_extended_request :
      OpaqueClient
      → Backend S
      → LdapInfo
      → LdapExtendedRequest
      → Option LdapPasswordModifyRequest
      → Handled S
  unfolding do_password_modification
  do_extended_request client backend info request (some password_request) h =
      replies (λ e. make_extended_response e.code e.message ∷ [])
        (do_password_modification client backend info h.user_info password_request) h
  do_extended_request client backend info request none h = (
    ok (
        some (
          make_extended_response LdapResultCode.unwilling_to_perform
            (unsupported_extended_operation request.name)
          ∷ [])),
    h,
  )

  unfoldable pub do_modify_request :
      OpaqueClient → Backend S → LdapInfo → LdapModifyRequest → Handled S
  unfolding handle_modify_request
  do_modify_request client backend info request h =
      replies (λ e. make_modify_response e.code e.message ∷ [])
        (handle_modify_request client backend info h.user_info request) h

  unfoldable pub handle_ldap_message : OpaqueClient → Backend S → LdapInfo → LdapOp → Handled S
  unfolding do_bind do_search_or_dse do_compare do_create_user do_modify_request do_extended_request
  handle_ldap_message client backend info (LdapOp.bind_request request) h =
      bind_replies (do_bind backend info request h.user_info h.db) h
  handle_ldap_message client backend info (LdapOp.search_request request) h =
      replies (λ e. make_search_error e.code e.message ∷ [])
        (ask (do_search_or_dse backend info h.user_info request)) h
  handle_ldap_message client backend info LdapOp.unbind_request h =
      (ok none, record { user_info = none; db = h.db })
  handle_ldap_message client backend info (LdapOp.modify_request request) h =
      do_modify_request client backend info request h
  handle_ldap_message client backend info (LdapOp.extended_request request) h =
      do_extended_request client backend info request request.password_modify h
  handle_ldap_message client backend info (LdapOp.add_request request) h =
      replies (λ e. make_add_error e.code e.message ∷ [])
        (do_create_user backend info h.user_info request) h
  handle_ldap_message client backend info (LdapOp.compare_request request) h =
      replies (λ e. make_search_error e.code e.message ∷ [])
        (ask (do_compare backend info h.user_info request)) h
  handle_ldap_message client backend info op h = (
    ok (
        some
          (make_extended_response LdapResultCode.unwilling_to_perform unsupported_operation ∷ [])),
    h,
  )
