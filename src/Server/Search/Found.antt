-- ===== src/Server/Search/Found.antt =====
-- Finding users and groups never panics, and what the lists have, the results have.
use lldap.Common.{◌≡◌, refl, Bool, true, Option, none, some, List, all, All, arith}
use lldap.Common.Result.{ok, err, panic, Ends, Ends-bind, Ends-map_err}
use lldap.Text.{Str, to_ascii_lowercase}
use lldap.Text.Laws.{to_ascii_lowercase_idem}
use lldap.Domain.Types.{External, Group, UserAndGroups}
use lldap.Domain.Handler.{UserRequestFilter, GroupRequestFilter}
use lldap.Domain.Schema.{PublicSchema}
use lldap.Access.{RestrictedLister, lister_list_users, lister_list_groups}
use lldap.Ldap.Error.{LdapResult}
use lldap.Ldap.Dn.{DnParts, rdn_is_lower, is_subtree, parse_distinguished_name}
use lldap.Ldap.Dn.Totality.{parse-Ends}
use lldap.Ldap.Fields.{LdapInfo}
use lldap.Ldap.Filter.{LdapOp, LdapFilter, LdapSearchRequest, LdapSearchScope}
use lldap.Ldap.UserFilter.{convert_user_filter, get_user_list}
use lldap.Ldap.UserFilter.Wrapped.{convert_user_filter-Translates, RestrictedTranslates}
use lldap.Ldap.GroupFilter.{convert_group_filter, get_groups_list}
use lldap.Ldap.GroupFilter.Totality.{convert_group_filter-Ends}
use lldap.Server.Search.{
  needs_groups, both, InternalSearchResults, users_and_groups, raw, empty, join_results,
  user_results, group_results, search_in, do_search_internal,
}
use lldap.Server.Scope.{SearchScope, get_search_scope}

abbrev pub Any : {A : Type 0} → A → Type 0
Any _ = Unit

-- A reply made without the backend: an entry in it has the name of the request's base.
abbrev pub IsAtBase : Str → LdapOp → Type 0
IsAtBase base (LdapOp.search_result_entry e) = e.dn ≡ base
IsAtBase base _ = Unit

-- The users, the groups and the ready replies of a result, each with its property.
abbrev pub Shown :
    Str → (UserAndGroups → Type 0) → (Group → Type 0) → InternalSearchResults → Type 0
Shown base P Q (users_and_groups us gs) = All P us × All Q gs
Shown base P Q (raw ops) = All (IsAtBase base) ops
Shown base P Q empty = Unit

join_results-Ends :
    (base : Str) (P : UserAndGroups → Type 0) (Q : Group → Type 0)
    (us : LdapResult (List UserAndGroups)) (gs : LdapResult (List Group))
    → Ends (All P) us
    → Ends (All Q) gs
    → Ends (Shown base P Q) (join_results us gs)
unfolding join_results
join_results-Ends base P Q panic gs h k = h
join_results-Ends base P Q (ok us) panic h k = k
join_results-Ends base P Q (err e) panic h k = k
join_results-Ends base P Q (ok us) (err e) h k = (h, tt)
join_results-Ends base P Q (err e) (ok gs) h k = (tt, k)
join_results-Ends base P Q (err d) (err e) h k = (tt, tt)
join_results-Ends base P Q (ok us) (ok gs) h k = (h, k)

get_search_scope-Ends :
    (b d : DnParts) (s : LdapSearchScope)
    → all rdn_is_lower b ≡ true
    → all rdn_is_lower d ≡ true
    → Ends Any (get_search_scope b d s)
unfolding get_search_scope is_subtree
get_search_scope-Ends b d s hb hd = ground arith

module _ ⦃lib : External⦄ {S : Type 0} where
  user_results-Ends :
      (info : LdapInfo) (lister : RestrictedLister S) (request : LdapSearchRequest)
      (schema : PublicSchema) (s : S) (P : UserAndGroups → Type 0) (filter : LdapFilter)
      → all rdn_is_lower info.base_dn ≡ true
      → ((f : Option UserRequestFilter) (g : Bool) → Ends (All P) (lister_list_users lister f g s))
      → Ends (All P) (user_results info lister request schema s filter)
  unfolding user_results get_user_list
  user_results-Ends info lister request schema s P filter hb h =
      Ends-bind (RestrictedTranslates none) (All P) (convert_user_filter filter info schema) _
        (convert_user_filter-Translates filter info schema none hb)
        (λ f _. Ends-map_err (All P) _ _ (h (some f) (needs_groups request)))

  group_results-Ends :
      (info : LdapInfo) (lister : RestrictedLister S) (request : LdapSearchRequest)
      (schema : PublicSchema) (s : S) (Q : Group → Type 0) (filter : LdapFilter)
      → all rdn_is_lower info.base_dn ≡ true
      → ((f : Option GroupRequestFilter) → Ends (All Q) (lister_list_groups lister f s))
      → Ends (All Q) (group_results info lister request schema s filter)
  unfolding group_results get_groups_list
  group_results-Ends info lister request schema s Q filter hb h =
      Ends-bind (λ _. Unit {0}) (All Q) (convert_group_filter filter info schema) _
        (convert_group_filter-Ends filter info schema hb)
        (λ f _. Ends-map_err (All Q) _ _ (h (some f)))

  search_in-Ends :
      (scope : SearchScope) (info : LdapInfo) (lister : RestrictedLister S)
      (request : LdapSearchRequest) (schema : PublicSchema) (s : S) (P : UserAndGroups → Type 0)
      (Q : Group → Type 0)
      → all rdn_is_lower info.base_dn ≡ true
      → ((f : Option UserRequestFilter) (g : Bool) → Ends (All P) (lister_list_users lister f g s))
      → ((f : Option GroupRequestFilter) → Ends (All Q) (lister_list_groups lister f s))
      → Ends (Shown request.base P Q) (search_in scope info lister request schema s)
  unfolding search_in
  search_in-Ends SearchScope.global info lister request schema s P Q hb hu hg =
      join_results-Ends request.base P Q _ _
        (user_results-Ends info lister request schema s P request.filter hb hu)
        (group_results-Ends info lister request schema s Q request.filter hb hg)
  search_in-Ends SearchScope.users info lister request schema s P Q hb hu hg =
      Ends-bind (All P) (Shown request.base P Q)
        (user_results info lister request schema s request.filter) _
        (user_results-Ends info lister request schema s P request.filter hb hu) (λ us h. (h, tt))
  search_in-Ends (SearchScope.user f) info lister request schema s P Q hb hu hg =
      Ends-bind (All P) (Shown request.base P Q)
        (user_results info lister request schema s (both request.filter f)) _
        (user_results-Ends info lister request schema s P (both request.filter f) hb hu)
        (λ us h. (h, tt))
  search_in-Ends SearchScope.groups info lister request schema s P Q hb hu hg =
      Ends-bind (All Q) (Shown request.base P Q)
        (group_results info lister request schema s request.filter) _
        (group_results-Ends info lister request schema s Q request.filter hb hg) (λ gs h. (tt, h))
  search_in-Ends (SearchScope.group f) info lister request schema s P Q hb hu hg =
      Ends-bind (All Q) (Shown request.base P Q)
        (group_results info lister request schema s (both request.filter f)) _
        (group_results-Ends info lister request schema s Q (both request.filter f) hb hg)
        (λ gs h. (tt, h))
  search_in-Ends SearchScope.user_ou_only info lister request schema s P Q hb hu hg = (refl, tt)
  search_in-Ends SearchScope.group_ou_only info lister request schema s P Q hb hu hg = (refl, tt)
  search_in-Ends _ info lister request schema s P Q hb hu hg = tt

  pub do_search_internal-Ends :
      (info : LdapInfo) (lister : RestrictedLister S) (request : LdapSearchRequest)
      (schema : PublicSchema) (s : S) (P : UserAndGroups → Type 0) (Q : Group → Type 0)
      → all rdn_is_lower info.base_dn ≡ true
      → ((f : Option UserRequestFilter) (g : Bool) → Ends (All P) (lister_list_users lister f g s))
      → ((f : Option GroupRequestFilter) → Ends (All Q) (lister_list_groups lister f s))
      → Ends (Shown request.base P Q) (do_search_internal info lister request schema s)
  unfolding do_search_internal
  do_search_internal-Ends info lister request schema s P Q hb hu hg =
      Ends-bind (λ ps. all rdn_is_lower ps ≡ true) (Shown request.base P Q)
        (parse_distinguished_name (to_ascii_lowercase request.base)) _
        (parse-Ends (to_ascii_lowercase request.base) (to_ascii_lowercase_idem request.base))
        (λ d hd.
          Ends-bind Any (Shown request.base P Q) (get_search_scope info.base_dn d request.scope) _
            (get_search_scope-Ends info.base_dn d request.scope hb hd)
            (λ scope _. search_in-Ends scope info lister request schema s P Q hb hu hg))
