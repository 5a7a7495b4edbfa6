-- ===== src/Server/Scope/Places.antt =====
-- What part of the tree a search is on.
use lldap.Common.{◌≡◌, refl, ap, true, some, [], ◌∷◌, ◌++◌, all, length, arith, if◌then◌else◌}
use lldap.Common.Result.{ok}
use lldap.Text.{◌==◌}
use lldap.Ldap.Dn.{Rdn, DnParts, rdn_is_lower, is_subtree}
use lldap.Ldap.Dn.Subtree.{is_subtree_complete}
use lldap.Ldap.Filter.{LdapFilter, LdapSearchScope}
use lldap.Server.Scope.{SearchScope, is_base, people, groups_ou, scope_of, get_search_scope}

-- The places that the server knows: the base, the two organizational units, and their entries.
pub data Place : Type 0 where
  base people_unit groups_unit : Place
  user group : Rdn → Place

abbrev pub place_dn : Place → DnParts → DnParts
place_dn Place.base b = b
place_dn Place.people_unit b = people ∷ b
place_dn Place.groups_unit b = groups_ou ∷ b
place_dn (Place.user p) b = p ∷ people ∷ b
place_dn (Place.group p) b = p ∷ groups_ou ∷ b

abbrev pub place_scope : Place → LdapSearchScope → SearchScope
place_scope Place.base s = SearchScope.global
place_scope Place.people_unit s = if is_base s then SearchScope.user_ou_only else SearchScope.users
place_scope Place.groups_unit s =
    if is_base s then SearchScope.group_ou_only else SearchScope.groups
place_scope (Place.user p) s = SearchScope.user (LdapFilter.equality p.0 p.1)
place_scope (Place.group p) s = SearchScope.group (LdapFilter.equality p.0 p.1)

scope_of-place :
    (p : Place) (b : DnParts) (s : LdapSearchScope)
    → scope_of (length b) (place_dn p b) (is_base s) ≡ place_scope p s
unfolding scope_of ◌==◌
scope_of-place Place.base b s = ground arith
scope_of-place Place.people_unit b s = ground arith
scope_of-place Place.groups_unit b s = ground arith
scope_of-place (Place.user p) b s = ground arith
scope_of-place (Place.group p) b s = ground arith

abbrev place_above : Place → DnParts
place_above Place.base = []
place_above Place.people_unit = people ∷ []
place_above Place.groups_unit = groups_ou ∷ []
place_above (Place.user p) = p ∷ people ∷ []
place_above (Place.group p) = p ∷ groups_ou ∷ []

place_dn-above : (p : Place) (b : DnParts) → place_dn p b ≡ place_above p ++ b
place_dn-above Place.base b = refl
place_dn-above Place.people_unit b = refl
place_dn-above Place.groups_unit b = refl
place_dn-above (Place.user p) b = refl
place_dn-above (Place.group p) b = refl

-- A search on the name of a place under the base, in lower case, is on this place: on its entry
-- only for an entry, and on the unit itself for a unit with the scope `base`.
pub get_search_scope-place :
    (p : Place) (b : DnParts) (s : LdapSearchScope)
    → all rdn_is_lower (place_dn p b) ≡ true
    → all rdn_is_lower b ≡ true
    → get_search_scope b (place_dn p b) s ≡ ok (place_scope p s)
unfolding get_search_scope
get_search_scope-place p b s hp hb =
    let under : is_subtree (place_dn p b) b ≡ some true =
      rw (place_dn-above p b)
        (is_subtree_complete (place_above p) b (rw (place_dn-above p b) at hp) hb) in
    rw (under, get_search_scope) (ap ok (scope_of-place p b s))
