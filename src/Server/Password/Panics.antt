-- ===== src/Server/Password/Panics.antt =====
-- The requests about a password that end in a panic of the handler.
use lldap.Common.{◌≡◌, refl, false, some, List}
use lldap.Common.Result.{ok, panic}
use lldap.Text.{Str, ◌==◌, to_ascii_lowercase}
use lldap.Domain.Types.{External, UserId}
use lldap.Domain.Backend.{Backend}
use lldap.Access.{Permission, ValidationResults}
use lldap.Access.Permissions.{regular_confined}
use lldap.Ldap.Dn.{
  parse_distinguished_name, get_id_from_distinguished_name, get_user_id_from_distinguished_name,
}
use lldap.Ldap.Fields.{LdapInfo}
use lldap.Ldap.Filter.{LdapModify}
use lldap.Server.Password.{
  OpaqueClient, read_user_is_admin, set_password_as, user_of_dn, do_password_modification,
  handle_modify_request,
}

module _ ⦃lib : External⦄ {S : Type 0} where
  read_user_is_admin-panics :
      (backend : Backend S) (v : ValidationResults) (uid : UserId) (s : S)
      → v.permission ≡ Permission.regular
      → (v.user == uid) ≡ false
      → read_user_is_admin backend v uid s ≡ (panic, s)
  unfolding read_user_is_admin
  read_user_is_admin-panics backend v uid s hp hn =
      let (_, _, _, unreadable, _) = regular_confined backend v uid false hp hn in
      rw (unreadable, read_user_is_admin) refl

  -- A bound user without privileges that names another user in a password modification or in a
  -- modify request panics the handler, before anything is written.
  pub regular_request-panics :
      (client : OpaqueClient) (backend : Backend S) (info : LdapInfo) (v : ValidationResults)
      (name password : Str) (changes : List LdapModify) (uid : UserId) (s : S)
      → v.permission ≡ Permission.regular
      → user_of_dn info name ≡ ok uid
      → (v.user == uid) ≡ false
      → (do_password_modification client backend info
            (some v)
            (record { user_identity = some name; new_password = some password })
            s
          ≡ (panic, s))
        × (handle_modify_request client backend info
              (some v)
              (record { dn = name; changes = changes })
              s
            ≡ (panic, s))
  unfolding do_password_modification set_password_as handle_modify_request
  regular_request-panics client backend info v name password changes uid s hp hu hn =
      rw (hu, read_user_is_admin-panics backend v uid s hp hn) (refl, refl)

  -- A bound user, administrators included, whose request spells the name with an upper-case letter
  -- panics the handler, in a password modification and in a modify request.
  pub upper_name-panics :
      (client : OpaqueClient) (backend : Backend S) (info : LdapInfo) (v : ValidationResults)
      (name password : Str) (changes : List LdapModify) (s : S)
      → (name == to_ascii_lowercase name) ≡ false
      → (do_password_modification client backend info
            (some v)
            (record { user_identity = some name; new_password = some password })
            s
          ≡ (panic, s))
        × (handle_modify_request client backend info
              (some v)
              (record { dn = name; changes = changes })
              s
            ≡ (panic, s))
  unfolding do_password_modification set_password_as handle_modify_request
      get_user_id_from_distinguished_name get_id_from_distinguished_name parse_distinguished_name
  upper_name-panics client backend info v name password changes s h = rw h (refl, refl)
