-- ===== src/Server/Handler/Unbound.antt =====
-- What a connection without a user can see and do.
use lldap.Common.{◌≡◌, refl, Bool, true, false, Option, none, some}
use lldap.Domain.Types.{External}
use lldap.Domain.Backend.{Backend}
use lldap.Ldap.Fields.{LdapInfo}
use lldap.Ldap.Filter.{LdapOp, LdapPasswordModifyRequest}
use lldap.Server.Password.{OpaqueClient, do_password_modification, handle_modify_request}
use lldap.Server.Search.{do_search, do_search_or_dse}
use lldap.Server.Compare.{do_compare}
use lldap.Server.Create.{do_create_user}
use lldap.Server.Handler.{new, do_extended_request, do_modify_request, handle_ldap_message}

abbrev pub is_bind : LdapOp → Bool
is_bind (LdapOp.bind_request r) = true
is_bind _ = false

module _ ⦃lib : External⦄ {S : Type 0} where
  -- Without a user, no message but a bind changes the connection or its database.
  pub unbound-unchanged :
      (client : OpaqueClient) (backend : Backend S) (info : LdapInfo) (op : LdapOp) (db : S)
      → is_bind op ≡ false
      → (handle_ldap_message client backend info op (new db)).1 ≡ new db
  unfolding handle_ldap_message do_extended_request do_modify_request do_password_modification
      handle_modify_request do_create_user
  unbound-unchanged client backend info (LdapOp.bind_request r) db h = cc
  unbound-unchanged client backend info (LdapOp.bind_response r) db h = refl
  unbound-unchanged client backend info LdapOp.unbind_request db h = refl
  unbound-unchanged client backend info (LdapOp.search_request r) db h = refl
  unbound-unchanged client backend info (LdapOp.search_result_entry r) db h = refl
  unbound-unchanged client backend info (LdapOp.search_result_done r) db h = refl
  unbound-unchanged client backend info (LdapOp.modify_request r) db h = refl
  unbound-unchanged client backend info (LdapOp.modify_response r) db h = refl
  unbound-unchanged client backend info (LdapOp.add_request r) db h = refl
  unbound-unchanged client backend info (LdapOp.add_response r) db h = refl
  unbound-unchanged client backend info (LdapOp.compare_request r) db h = refl
  unbound-unchanged client backend info (LdapOp.compare_result r) db h = refl
  unbound-unchanged client backend info (LdapOp.extended_request r) db h =
      extended r.password_modify
    where
      extended :
          (p : Option LdapPasswordModifyRequest)
          → (do_extended_request client backend info r p (new db)).1 ≡ new db
      extended none = refl
      extended (some p) = refl
  unbound-unchanged client backend info (LdapOp.extended_response r) db h = refl
  unbound-unchanged client backend info (LdapOp.other n) db h = refl

module _ ⦃lib : External⦄ {S T : Type 0} where
  -- Without a user, the replies to a message other than a bind are the same over any two backends
  -- and databases: they tell nothing about the directory.
  pub unbound-blind :
      (client client' : OpaqueClient) (backend : Backend S) (backend' : Backend T) (info : LdapInfo)
      (op : LdapOp) (db : S) (db' : T)
      → is_bind op ≡ false
      → (handle_ldap_message client backend info op (new db)).0
        ≡ (handle_ldap_message client' backend' info op (new db')).0
  unfolding handle_ldap_message do_extended_request do_modify_request do_password_modification
      handle_modify_request do_create_user do_compare do_search_or_dse do_search
  unbound-blind c c' b b' info (LdapOp.bind_request r) db db' h = cc
  unbound-blind c c' b b' info (LdapOp.bind_response r) db db' h = refl
  unbound-blind c c' b b' info LdapOp.unbind_request db db' h = refl
  unbound-blind c c' b b' info (LdapOp.search_request r) db db' h = refl
  unbound-blind c c' b b' info (LdapOp.search_result_entry r) db db' h = refl
  unbound-blind c c' b b' info (LdapOp.search_result_done r) db db' h = refl
  unbound-blind c c' b b' info (LdapOp.modify_request r) db db' h = refl
  unbound-blind c c' b b' info (LdapOp.modify_response r) db db' h = refl
  unbound-blind c c' b b' info (LdapOp.add_request r) db db' h = refl
  unbound-blind c c' b b' info (LdapOp.add_response r) db db' h = refl
  unbound-blind c c' b b' info (LdapOp.compare_request r) db db' h = refl
  unbound-blind c c' b b' info (LdapOp.compare_result r) db db' h = refl
  unbound-blind c c' b b' info (LdapOp.extended_request r) db db' h = extended r.password_modify
    where
      extended :
          (p : Option LdapPasswordModifyRequest)
          → (do_extended_request c b info r p (new db)).0
            ≡ (do_extended_request c' b' info r p (new db')).0
      extended none = refl
      extended (some p) = refl
  unbound-blind c c' b b' info (LdapOp.extended_response r) db db' h = refl
  unbound-blind c c' b b' info (LdapOp.other n) db db' h = refl
