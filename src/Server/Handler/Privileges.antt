-- ===== src/Server/Handler/Privileges.antt =====
-- What a bound user that is not an administrator can change.
use lldap.Common.{◌≡◌, refl, Bool, true, false, some}
use lldap.Common.Result.{ok, err, panic}
use lldap.Domain.Types.{External}
use lldap.Domain.Backend.{Backend}
use lldap.Access.{ValidationResults, is_admin}
use lldap.Ldap.Error.{LdapResult}
use lldap.Ldap.Fields.{LdapInfo}
use lldap.Ldap.Filter.{LdapOp}
use lldap.Server.Session.{BindOutcome, do_bind}
use lldap.Server.Password.{OpaqueClient}
use lldap.Server.Create.Guarded.{create_user-unauthorized}
use lldap.Server.Handler.{LdapHandler, bind_replies, handle_ldap_message}

-- The two operations that can change a password.
abbrev pub sets_password : LdapOp → Bool
sets_password (LdapOp.modify_request r) = true
sets_password (LdapOp.extended_request r) = true
sets_password _ = false

bind_replies-keeps :
    {S : Type 0} (r : LdapResult BindOutcome) (h : LdapHandler S) → (bind_replies r h).1.db ≡ h.db
bind_replies-keeps (ok o) h = refl
bind_replies-keeps (err e) h = refl
bind_replies-keeps panic h = refl

module _ ⦃lib : External⦄ {S : Type 0} where
  -- No message of a bound user that is not an administrator changes the database, but for a modify
  -- and an extended request.
  pub non_admin-keeps :
      (client : OpaqueClient) (backend : Backend S) (info : LdapInfo) (op : LdapOp)
      (v : ValidationResults) (db : S)
      → is_admin v ≡ false
      → sets_password op ≡ false
      → (handle_ldap_message client backend info op (record { user_info = some v; db = db })).1.db
        ≡ db
  unfolding handle_ldap_message
  non_admin-keeps c b info (LdapOp.bind_request r) v db n h =
      bind_replies-keeps (do_bind b info r (some v) db) (record { user_info = some v; db = db })
  non_admin-keeps c b info (LdapOp.add_request r) v db n h =
      rw (create_user-unauthorized b info v r db n) refl
  non_admin-keeps c b info (LdapOp.modify_request r) v db n h = cc
  non_admin-keeps c b info (LdapOp.extended_request r) v db n h = cc
  non_admin-keeps c b info (LdapOp.bind_response r) v db n h = refl
  non_admin-keeps c b info LdapOp.unbind_request v db n h = refl
  non_admin-keeps c b info (LdapOp.search_request r) v db n h = refl
  non_admin-keeps c b info (LdapOp.compare_request r) v db n h = refl
  non_admin-keeps c b info _ v db n h = refl
