-- ===== src/Examples/Searches.antt =====
-- The theorems on searches, at the directory of the examples.
use lldap.Common.{◌≡◌, refl, true, [], ◌∷◌, all}
use lldap.Common.Result.{ok}
use lldap.Text.{codes, ◌==◌, to_ascii_lowercase}
use lldap.Domain.Handler.{Schema}
use lldap.Ldap.Dn.{rdn_is_lower}
use lldap.Ldap.Filter.{LdapFilter, LdapSearchScope, LdapSearchRequest}
use lldap.Server.Scope.{SearchScope, get_search_scope}
use lldap.Server.Scope.Places.{Place, place_dn, get_search_scope-place}
use lldap.Examples.World.{ascii, ann, info, base_lower}

abbrev request : LdapSearchRequest
request = record {
  base = codes "dc=org";
  scope = LdapSearchScope.subtree;
  filter = LdapFilter.present (codes "uid");
  attrs = codes "*" ∷ [];
}

abbrev ann_place : Place
ann_place = Place.user (codes "uid", ann)

ann_place_lower : all rdn_is_lower (place_dn ann_place info.base_dn) ≡ true
unfolding ◌==◌ to_ascii_lowercase
ann_place_lower = refl

get_search_scope-place_example :
    get_search_scope info.base_dn (place_dn ann_place info.base_dn) LdapSearchScope.base
    ≡ ok (SearchScope.user (LdapFilter.equality (codes "uid") ann))
get_search_scope-place_example =
    get_search_scope-place ann_place info.base_dn LdapSearchScope.base ann_place_lower base_lower
