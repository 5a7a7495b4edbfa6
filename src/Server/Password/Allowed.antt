-- ===== src/Server/Password/Allowed.antt =====
-- When a request about a password can change the database.
use lldap.Common.{◌≡◌, refl, inl, inr, Bool, false, Option, some, none, List, Option-cases}
use lldap.Common.Result.{ok, map_err}
use lldap.Common.Exec.{continue-keeps, for_each}
use lldap.Text.{Str}
use lldap.Domain.Types.{External, UserId}
use lldap.Domain.Backend.{Backend}
use lldap.Access.{ValidationResults, can_change_password, get_readable_handler}
use lldap.Ldap.Fields.{LdapInfo}
use lldap.Ldap.Filter.{LdapModify, LdapModifyRequest}
use lldap.Server.Password.{
  OpaqueClient, groups_error, read_user_is_admin, set_password_as, user_of_dn, handle_modify_change,
  do_password_modification, handle_modify_request,
}
use lldap.Server.Password.Authority.{changes-denied}

module _ ⦃lib : External⦄ {S : Type 0} where
  read-unchanged :
      (backend : Backend S) (v : ValidationResults) (uid : UserId) (s : S)
      → (read_user_is_admin backend v uid s).1 ≡ s
  unfolding read_user_is_admin
  read-unchanged backend v uid s = elim (Option-cases (get_readable_handler backend v uid)) [
    | inl refused ↦ rw (refused, read_user_is_admin) refl
    | inr (b, given) ↦
        rw (given, read_user_is_admin)
          (continue-keeps (map_err groups_error (b.get_user_groups uid s)) _ s s refl
            (λ groups _. refl))
  ]

  -- No answer about the groups of the user that the name is read as lets `v` change its password.
  abbrev pub IsRefused : Backend S → LdapInfo → ValidationResults → Str → S → Type 0
  IsRefused backend info v name s =
      (uid : UserId) (user_is_admin : Bool)
      → user_of_dn info name ≡ ok uid
      → (read_user_is_admin backend v uid s).0 ≡ ok user_is_admin
      → can_change_password v uid user_is_admin ≡ false

  set_password_as-refused :
      (client : OpaqueClient) (backend : Backend S) (info : LdapInfo) (v : ValidationResults)
      (name password : Str) (s : S)
      → IsRefused backend info v name s
      → (set_password_as client backend info v name password s).1 ≡ s
  unfolding set_password_as
  set_password_as-refused client backend info v name password s h =
      continue-keeps (user_of_dn info name) _ s s refl λ uid eu.
        continue-keeps (read_user_is_admin backend v uid s).0 _ s
          (read_user_is_admin backend v uid s).1 (read-unchanged backend v uid s)
          λ a ea. rw (h uid a eu ea) refl

  modify-refused :
      (client : OpaqueClient) (backend : Backend S) (info : LdapInfo) (v : ValidationResults)
      (request : LdapModifyRequest) (s : S)
      → IsRefused backend info v request.dn s
      → (handle_modify_request client backend info (some v) request s).1 ≡ s
  unfolding handle_modify_request
  modify-refused client backend info v request s h =
      continue-keeps (user_of_dn info request.dn) _ s s refl λ uid eu.
        continue-keeps (read_user_is_admin backend v uid s).0 _ s
          (read_user_is_admin backend v uid s).1 (read-unchanged backend v uid s)
          λ a ea.
            continue-keeps
              (for_each (handle_modify_change client backend uid v a) request.changes s).0 _ s
              (for_each (handle_modify_change client backend uid v a) request.changes s).1
              (changes-denied client backend v uid a request.changes s (h uid a eu ea))
              λ done _. refl

  -- A request about a password, be it a password modification or a modify request, changes the
  -- database only if the name is read as a user whose groups could be read, and for whom
  -- `can_change_password` says yes: otherwise the database is as before, whatever the answer.
  pub password-IsRefused :
      (client : OpaqueClient) (backend : Backend S) (info : LdapInfo) (v : ValidationResults)
      (name : Str) (password : Option Str) (changes : List LdapModify) (s : S)
      → IsRefused backend info v name s
      → ((do_password_modification client backend info
            (some v)
            (record { user_identity = some name; new_password = password })
            s).1
          ≡ s)
        × ((handle_modify_request client backend info
              (some v)
              (record { dn = name; changes = changes })
              s).1
            ≡ s)
  unfolding do_password_modification
  password-IsRefused client backend info v name none changes s h =
      (refl, modify-refused client backend info v (record { dn = name; changes = changes }) s h)
  password-IsRefused client backend info v name (some p) changes s h = (
    set_password_as-refused client backend info v name p s h,
    modify-refused client backend info v (record { dn = name; changes = changes }) s h,
  )
