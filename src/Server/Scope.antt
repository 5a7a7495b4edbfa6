-- ===== src/Server/Scope.antt =====
-- server/src/infra/ldap_handler.rs: the part of the tree that a search is on.
pub mod Places
use lldap.Common.{
  ℕ, ◌+◌, Bool, true, false, ◌&&◌, Option, none, some, List, [], ◌∷◌, ◌++◌, any, length, nat_eq,
  ltb, String, if◌then◌else◌,
}
use lldap.Common.Result.{Result, ok, err, panic, ◌>>=◌, map_err, ok_or}
use lldap.Text.{Str, Bytes, codes, ◌==◌, to_ascii_lowercase}
use lldap.Text.Utf8.{into_bytes}
use lldap.Domain.Types.{External, UserId, Group, UserAndGroups}
use lldap.Domain.Backend.{Backend}
use lldap.Domain.Schema.{PublicSchema, public_schema}
use lldap.Access.{
  ValidationResults, RestrictedLister, get_user_restricted_lister_handler, lister_get_schema,
}
use lldap.Ldap.Error.{
  LdapError, LdapResult, LdapResultCode, Message, schema_failed, too_many_search_results,
  no_search_results, unexpected_search_results,
}
use lldap.Ldap.Dn.{DnParts, Rdn, rdn_eq, is_subtree, is_empty, parse_distinguished_name}
use lldap.Ldap.Fields.{LdapInfo}
use lldap.Ldap.Filter.{
  LdapFilter, LdapFilters, LdapSearchScope, LdapSearchRequest, LdapSearchResultEntry,
  LdapPartialAttribute, LdapCompareRequest, LdapResultOp, LdapOp,
}
use lldap.Ldap.User.{convert_users_to_ldap_op}
use lldap.Ldap.UserFilter.{get_user_list}
use lldap.Ldap.Group.{convert_groups_to_ldap_op}
use lldap.Ldap.GroupFilter.{get_groups_list}
use lldap.Server.Session.{not_bound, make_search_error, make_search_success}

pub data SearchScope : Type 0 where
  global users groups : SearchScope
  user group : LdapFilter → SearchScope
  user_ou_only group_ou_only unknown invalid : SearchScope

abbrev pub is_base : LdapSearchScope → Bool
is_base LdapSearchScope.base = true
is_base _ = false

abbrev pub people : Rdn
people = (codes "ou", codes "people")

abbrev pub groups_ou : Rdn
groups_ou = (codes "ou", codes "groups")

-- `dn_parts[0] == …` and `dn_parts[1] == …`, made only behind a test that the part is there.
abbrev pub first_is : Rdn → DnParts → Bool
first_is r [] = false
first_is r (p ∷ parts) = rdn_eq p r

abbrev pub second_is : Rdn → DnParts → Bool
second_is r [] = false
second_is r (p ∷ parts) = first_is r parts

-- `LdapFilter::Equality(dn_parts[0].0.clone(), dn_parts[0].1.clone())`, behind the same test.
abbrev pub entry_filter : DnParts → LdapFilter
entry_filter [] = LdapFilter.equality [] []
entry_filter (p ∷ parts) = LdapFilter.equality p.0 p.1

-- The tests of `get_search_scope` on a name under the base.
unfoldable pub scope_of : ℕ → DnParts → Bool → SearchScope
scope_of base_len parts base_only =
    if nat_eq (length parts) base_len
    then SearchScope.global
    else if nat_eq (length parts) (base_len + 1) && first_is people parts
    then (if base_only then SearchScope.user_ou_only else SearchScope.users)
    else if nat_eq (length parts) (base_len + 1) && first_is groups_ou parts
    then (if base_only then SearchScope.group_ou_only else SearchScope.groups)
    else if nat_eq (length parts) (base_len + 2) && second_is people parts
    then SearchScope.user (entry_filter parts)
    else if nat_eq (length parts) (base_len + 2) && second_is groups_ou parts
    then SearchScope.group (entry_filter parts)
    else SearchScope.unknown

unfoldable pub get_search_scope : DnParts → DnParts → LdapSearchScope → LdapResult SearchScope
unfolding scope_of
get_search_scope base_dn dn_parts ldap_scope = elim (is_subtree dn_parts base_dn) [
  | none ↦ panic
  | some false ↦ ok SearchScope.invalid
  | some true ↦ ok (scope_of (length base_dn) dn_parts (is_base ldap_scope))
]
