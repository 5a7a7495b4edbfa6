-- ===== src/Server/Search/Confined.antt =====
-- What an unprivileged user finds by a search, whatever the request.
use lldap.Common.{◌≡◌, refl, Bool, true, false, Option, all}
use lldap.Common.Result.{Result, ok, err, panic, Ends}
use lldap.Domain.Types.{External}
use lldap.Domain.Handler.{UserRequestFilter, GroupRequestFilter}
use lldap.Domain.Backend.{Backend}
use lldap.Domain.Schema.{PublicSchema}
use lldap.Access.{
  ValidationResults, can_read_all, get_user_restricted_lister_handler, lister_list_users,
  lister_list_groups,
}
use lldap.Access.Lister.{SelectsByFilter, lister_users_own, lister_groups_own, OwnGroup}
use lldap.Ldap.Dn.{rdn_is_lower}
use lldap.Ldap.Fields.{LdapInfo}
use lldap.Ldap.Filter.{LdapSearchRequest}
use lldap.Server.Search.{do_search_internal}
use lldap.Server.Search.Found.{Shown, do_search_internal-Ends}

-- Every value that a call can return has the property.
Ends-of_eq :
    {E A : Type 0} (P : A → Type 0) (r : Result E A)
    → Ends (λ _. Unit {0}) r
    → ((a : A) → r ≡ ok a → P a)
    → Ends P r
Ends-of_eq P (ok a) h k = k a refl
Ends-of_eq P (err e) h k = tt
Ends-of_eq P panic h k = h

module _ ⦃lib : External⦄ {S : Type 0} where
  -- A search by a user without `can_read_all`, over a lower-case base and a backend whose lists
  -- answer and keep to their filters, does not panic, and it finds no user but that user, no
  -- group but those that the backend lists with that user as a member, and beyond them only an entry with the name of the
  -- request's base.
  pub do_search_internal-own :
      (backend : Backend S) (laws : SelectsByFilter backend) (info : LdapInfo)
      (v : ValidationResults) (request : LdapSearchRequest) (schema : PublicSchema) (s : S)
      → all rdn_is_lower info.base_dn ≡ true
      → can_read_all v ≡ false
      → ((f : Option UserRequestFilter) (g : Bool)
          → Ends (λ _. Unit {0}) (backend.list_users f g s))
      → ((f : Option GroupRequestFilter) → Ends (λ _. Unit {0}) (backend.list_groups f s))
      → Ends
          (Shown request.base (λ u. u.user.user_id ≡ v.user) (OwnGroup backend v.user s))
          (do_search_internal info (get_user_restricted_lister_handler backend v) request schema s)
  unfolding lister_list_users lister_list_groups get_user_restricted_lister_handler
  do_search_internal-own backend laws info v request schema s hb hr hu hg =
      let lister = get_user_restricted_lister_handler backend v in
      do_search_internal-Ends info lister request schema s _ _ hb
        (λ f g.
          Ends-of_eq _ (lister_list_users lister f g s) (hu _ g)
            (λ us e. lister_users_own backend laws v f g s us hr e))
        (λ f.
          Ends-of_eq _ (lister_list_groups lister f s) (hg _)
            (λ gs e. lister_groups_own backend laws v f s gs hr e))
