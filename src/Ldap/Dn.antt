-- ===== src/Ldap/Dn.antt =====
-- Distinguished names: server/src/domain/ldap/utils.rs, up to `is_subtree`.
pub mod Subtree
pub mod Parsing
pub mod Ids
pub mod Wildcards
pub mod Totality
use lldap.Common.{
  ℕ, zero, suc, ◌+◌, ◌-◌, Bool, true, false, not, ◌&&◌, ◌||◌, Option, none, some, List, [], ◌∷◌,
  ◌++◌, map, ltb, nat_eq, if◌then◌else◌, length, all, any, retain,
}
use lldap.Common.Result.{Result, ok, err, panic, ◌>>=◌, map_err, traverse}
use lldap.Text.{Str, codes, ◌==◌, to_ascii_lowercase, split, trim}
use lldap.Domain.Types.{UserId, GroupName, new_user_id}
use lldap.Ldap.Error.{
  LdapResultCode, invalid_dn_syntax, LdapError, LdapResult, Message, empty_dn_element,
  missing_dn_value, too_many_elements, not_a_subtree, unexpected_dn_format,
}

-- One attribute of a name, and the attributes of a name from the entry to the root.
abbrev pub Rdn : Type 0
Rdn = Str × Str

abbrev pub DnParts : Type 0
DnParts = List Rdn

abbrev pub dn_error : Message → LdapError
dn_error m = record { code = invalid_dn_syntax; message = m }

unfoldable pub make_dn_pair : List Str → LdapResult Rdn
make_dn_pair [] = err (dn_error empty_dn_element)
make_dn_pair (k ∷ []) = err (dn_error missing_dn_value)
make_dn_pair (k ∷ v ∷ []) = ok (k, v)
make_dn_pair (k ∷ v ∷ e ∷ rest) = err (dn_error (too_many_elements k v e))

-- `s.split('=').map(str::trim)`
abbrev pub dn_elements : Str → List Str
dn_elements s = map trim (split b'=' s)

abbrev pub parse_rdn : Str → LdapResult Rdn
parse_rdn s = make_dn_pair (dn_elements s)

-- The assertion refuses a name with an upper-case letter by a panic.
unfoldable pub parse_distinguished_name : Str → LdapResult DnParts
unfolding make_dn_pair traverse
parse_distinguished_name dn =
    if dn == to_ascii_lowercase dn then traverse parse_rdn (split b',' dn) else panic

abbrev pub is_lower : Str → Bool
is_lower s = s == to_ascii_lowercase s

abbrev pub rdn_is_lower : Rdn → Bool
rdn_is_lower p = is_lower p.0 && is_lower p.1

abbrev pub rdn_eq : Rdn → Rdn → Bool
rdn_eq p q = p.0 == q.0 && p.1 == q.1

-- The loop of `is_subtree` from index `i`, comparing `subtree[size_diff + i]` with `base_tree[i]`:
-- both are walked from there on.
unfoldable pub same_from : DnParts → DnParts → Bool
same_from subtree [] = true
same_from [] (b ∷ base) = false
same_from (p ∷ subtree) (b ∷ base) = rdn_eq p b && same_from subtree base

unfoldable pub drop : ℕ → DnParts → DnParts
drop zero ps = ps
drop (suc n) [] = []
drop (suc n) (p ∷ ps) = drop n ps

-- `none` stands for a failed assertion.
unfoldable pub is_subtree : DnParts → DnParts → Option Bool
unfolding same_from drop
is_subtree subtree base_tree =
    if all rdn_is_lower subtree && all rdn_is_lower base_tree
    then (some (
        if ltb (length subtree) (length base_tree)
        then false
        else same_from (drop (length subtree - length base_tree) subtree) base_tree))
    else none

abbrev pub ou_of : Bool → Str
ou_of is_group = if is_group then codes "groups" else codes "people"

-- The tests on `parts[0]` and `parts[1]`; an index out of bounds would panic.
unfoldable pub check_id_parts : DnParts → Str → Message → LdapResult Str
check_id_parts (p ∷ q ∷ rest) ou unexpected =
    if not (q.0 == codes "ou")
      || not (q.1 == ou)
      || (not (p.0 == codes "cn") && not (p.0 == codes "uid"))
    then err (dn_error unexpected)
    else ok p.1
check_id_parts _ ou unexpected = panic

-- What follows the parsing.
unfoldable pub check_entry : DnParts → Str → DnParts → Str → Bool → LdapResult Str
unfolding check_id_parts
check_entry parts dn base_tree base_dn_str is_group =
    let unexpected = unexpected_dn_format dn (ou_of is_group) base_dn_str in
    elim (is_subtree parts base_tree) [
      | none ↦ panic
      | some false ↦ err (dn_error not_a_subtree)
      | some true ↦
          if nat_eq (length parts) (length base_tree + 2)
          then check_id_parts parts (ou_of is_group) unexpected
          else err (dn_error unexpected)
    ]

unfoldable pub get_id_from_distinguished_name : Str → DnParts → Str → Bool → LdapResult Str
get_id_from_distinguished_name dn base_tree base_dn_str is_group = do
  parts ← parse_distinguished_name dn
  check_entry parts dn base_tree base_dn_str is_group

unfoldable pub get_user_id_from_distinguished_name : Str → DnParts → Str → LdapResult UserId
get_user_id_from_distinguished_name dn base_tree base_dn_str = do
  id ← get_id_from_distinguished_name dn base_tree base_dn_str false
  ok (new_user_id id)

unfoldable pub get_group_id_from_distinguished_name : Str → DnParts → Str → LdapResult GroupName
get_group_id_from_distinguished_name dn base_tree base_dn_str =
    get_id_from_distinguished_name dn base_tree base_dn_str true

-- `unique_by(|a| a.to_ascii_lowercase())`: the first of each case-insensitive name stays, in order.
unfoldable pub unique_from : List Str → List Str → List Str
unique_from seen [] = []
unique_from seen (a ∷ as') =
    let key = to_ascii_lowercase a in
    let fresh = a ∷ unique_from (key ∷ seen) as' in
    let rest = unique_from seen as' in if any (λ k. k == key) seen then rest else fresh

abbrev pub is_wildcard : Str → Bool
is_wildcard s = s == codes "*"

abbrev pub is_special : Str → Bool
is_special s = s == codes "*" || s == codes "+" || s == codes "1.1"

abbrev pub is_empty {ℓ} : {A : Type ℓ} → List A → Bool
is_empty [] = true
is_empty (x ∷ xs) = false

unfoldable pub expand_attribute_wildcards : List Str → List Str → List Str
unfolding unique_from retain
expand_attribute_wildcards ldap_attributes all_attribute_keys =
    let extra =
      if any is_wildcard ldap_attributes || is_empty ldap_attributes
      then all_attribute_keys
      else [] in
    let attributes_out = retain (λ s. not (is_special s)) ldap_attributes in
    unique_from [] (attributes_out ++ extra)
