-- ===== src/Server/Password/Authority.antt =====
-- Who can change a password through LDAP, and what a refusal leaves of the database.
use lldap.Common.{◌≡◌, refl, inl, inr, Bool, false, not, ◌||◌, some, List, [], ◌∷◌, Bool-cases}
use lldap.Common.Result.{ok, err}
use lldap.Common.Exec.{for_each}
use lldap.Text.{Str, ◌==◌, codes, to_ascii_lowercase}
use lldap.Domain.Types.{External, UserId}
use lldap.Domain.Backend.{Backend}
use lldap.Access.{ValidationResults, can_change_password}
use lldap.Ldap.Error.{LdapError}
use lldap.Ldap.Fields.{LdapInfo}
use lldap.Ldap.Filter.{LdapModify}
use lldap.Server.Password.{
  OpaqueClient, read_user_is_admin, set_password_as, user_of_dn, denied, is_replace,
  handle_modify_change, do_password_modification,
}

module _ ⦃lib : External⦄ {S : Type 0} where
  -- A password modification by a bound user, with a name that is read as a user and a password,
  -- is refused with `insufficent_access_rights` and leaves the database unchanged, where that user's
  -- groups could be read and `can_change_password` says no.
  pub password_modification-denied :
      (client : OpaqueClient) (backend : Backend S) (info : LdapInfo) (v : ValidationResults)
      (user password : Str) (uid : UserId) (user_is_admin : Bool) (s : S)
      → user_of_dn info user ≡ ok uid
      → read_user_is_admin backend v uid s ≡ (ok user_is_admin, s)
      → can_change_password v uid user_is_admin ≡ false
      → do_password_modification client backend info
          (some v)
          (record { user_identity = some user; new_password = some password })
          s
        ≡ (err (denied v uid), s)
  unfolding do_password_modification set_password_as
  password_modification-denied client backend info v user password uid a s hu hr hc =
      rw (hu, hr, hc) refl

  change-denied :
      (client : OpaqueClient) (backend : Backend S) (v : ValidationResults) (uid : UserId)
      (a : Bool) (change : LdapModify) (s : S)
      → can_change_password v uid a ≡ false
      → (e : LdapError) × (handle_modify_change client backend uid v a change s ≡ (err e, s))
  unfolding handle_modify_change
  change-denied client backend v uid a change s hc =
      elim (Bool-cases (
        not (to_ascii_lowercase change.modification.atype == codes "userpassword")
        || not (is_replace change.operation))) [
          | inl other ↦ rw other (_, refl)
          | inr replaces ↦ rw (replaces, hc) (_, refl)
        ]

  pub changes-denied :
      (client : OpaqueClient) (backend : Backend S) (v : ValidationResults) (uid : UserId)
      (a : Bool) (changes : List LdapModify) (s : S)
      → can_change_password v uid a ≡ false
      → (for_each (handle_modify_change client backend uid v a) changes s).1 ≡ s
  unfolding for_each
  changes-denied client backend v uid a [] s hc = refl
  changes-denied client backend v uid a (c ∷ cs) s hc =
      let (e, h) = change-denied client backend v uid a c s hc in rw h refl
