-- ===== src/Ldap/Dn/Ids.antt =====
-- The user id and the group name in a distinguished name.
use lldap.Common.{
  ◌+◌, ◌≡◌, ◌≢◌, refl, ap, ◌∙◌, ◌⊎◌, inl, inr, Bool, true, false, some, [], ◌∷◌, ◌++◌, All, all,
  length, length-append, arith,
}
use lldap.Common.Result.{ok, >>=-eq-ok}
use lldap.Text.{Str, ◌==◌, codes, trim, to_ascii_lowercase}
use lldap.Text.Laws.{==_iff, ==_refl}
use lldap.Ldap.Error.{Message, unexpected_dn_format, LdapResult}
use lldap.Domain.Types.{new_user_id, new_case_insensitive}
use lldap.Ldap.Dn.{
  Rdn, DnParts, rdn_is_lower, ou_of, check_id_parts, check_entry, is_subtree,
  parse_distinguished_name, get_id_from_distinguished_name, get_user_id_from_distinguished_name,
  get_group_id_from_distinguished_name,
}
use lldap.Ldap.Dn.Subtree.{is_subtree_sound, is_subtree_complete}
use lldap.Ldap.Dn.Parsing.{IsPlain, IsPlainRdn, print_dn, parse-print_dn}

-- The parts of an entry's name: `cn` or `uid`, the organizational unit, and the base.
abbrev pub IsEntry : Bool → Str → DnParts → DnParts → Type 0
IsEntry is_group id base parts =
    (key : Str) × ((key ≡ codes "cn") ⊎ (key ≡ codes "uid"))
    × (parts ≡ (key, id) ∷ (codes "ou", ou_of is_group) ∷ base)

check_id_parts_sound :
    (p q : Rdn) (rest : DnParts) (is_group : Bool) (m : Message) (id : Str)
    → check_id_parts (p ∷ q ∷ rest) (ou_of is_group) m ≡ ok id
    → ((p.0 ≡ codes "cn") ⊎ (p.0 ≡ codes "uid")) × (q ≡ (codes "ou", ou_of is_group)) × (p.1 ≡ id)
unfolding check_id_parts
check_id_parts_sound (k, v) (o, n) rest is_group m id h = ground (
  arith,
  ==_iff k (codes "cn"),
  ==_iff k (codes "uid"),
  ==_iff o (codes "ou"),
  ==_iff n (ou_of is_group),
)

two_above :
    (above base : DnParts) (is_group : Bool) (m : Message) (id : Str)
    → length (above ++ base) ≡ length base + 2
    → check_id_parts (above ++ base) (ou_of is_group) m ≡ ok id
    → IsEntry is_group id base (above ++ base)
two_above [] base g m id n h = absurd (omega arith)
two_above (p ∷ []) base g m id n h = absurd (omega arith)
two_above (p ∷ q ∷ []) base g m id n h =
    let (key, ou, value) = check_id_parts_sound p q base g m id h in (p.0, key, cc)
two_above (p ∷ q ∷ r ∷ above) base g m id n h = absurd (omega (arith, length-append above base))

-- An id is returned only for a name that parses to `cn` or `uid` with that id, the unit asked for,
-- and the base.
pub get_id_sound :
    (dn : Str) (base : DnParts) (base_str : Str) (is_group : Bool) (id : Str)
    → get_id_from_distinguished_name dn base base_str is_group ≡ ok id
    → (parts : DnParts) × (parse_distinguished_name dn ≡ ok parts) × IsEntry is_group id base parts
unfolding get_id_from_distinguished_name check_entry
get_id_sound dn base base_str is_group id h =
    let (parts, parsed, rest) = >>=-eq-ok (parse_distinguished_name dn) _ h in
    let sub : is_subtree parts base ≡ some true = ground arith in
    let n : length parts ≡ length base + 2 = ground arith in
    let (above, e) = is_subtree_sound parts base sub in
    let m = unexpected_dn_format dn (ou_of is_group) base_str in
    let checked : check_id_parts parts (ou_of is_group) m ≡ ok id = ground arith in
    (parts, parsed, rw e (two_above above base is_group m id (rw e at n) (rw e at checked)))

-- The name that the program prints for a user or a group entry, with `uid` or `cn`.
abbrev pub entry_dn : Str → Bool → Str → DnParts → Str
entry_dn key is_group id base = print_dn ((key, id) ∷ (codes "ou", ou_of is_group) ∷ base)

IsPlain-ou : IsPlain (codes "ou")
unfolding trim to_ascii_lowercase
IsPlain-ou = record {
  no_comma = ground arith;
  no_equals = ground arith;
  trimmed = refl;
  lowered = refl;
}

IsPlain-people : IsPlain (codes "people")
unfolding trim to_ascii_lowercase
IsPlain-people = record {
  no_comma = ground arith;
  no_equals = ground arith;
  trimmed = refl;
  lowered = refl;
}

IsPlain-groups : IsPlain (codes "groups")
unfolding trim to_ascii_lowercase
IsPlain-groups = record {
  no_comma = ground arith;
  no_equals = ground arith;
  trimmed = refl;
  lowered = refl;
}

pub IsPlain-uid : IsPlain (codes "uid")
unfolding trim to_ascii_lowercase
IsPlain-uid = record {
  no_comma = ground arith;
  no_equals = ground arith;
  trimmed = refl;
  lowered = refl;
}

pub IsPlain-cn : IsPlain (codes "cn")
unfolding trim to_ascii_lowercase
IsPlain-cn = record {
  no_comma = ground arith;
  no_equals = ground arith;
  trimmed = refl;
  lowered = refl;
}

IsPlain-ou_of : (is_group : Bool) → IsPlain (ou_of is_group)
IsPlain-ou_of true = IsPlain-groups
IsPlain-ou_of false = IsPlain-people

plain-lower : (ps : DnParts) → All IsPlainRdn ps → all rdn_is_lower ps ≡ true
plain-lower [] _ = refl
plain-lower ((k, v) ∷ ps) ((hk, hv), hs) =
    rw (hk.lowered, hv.lowered, ==_refl k, ==_refl v) (plain-lower ps hs)

IsPlain-key : (key : Str) → (key ≡ codes "cn") ⊎ (key ≡ codes "uid") → IsPlain key
IsPlain-key key (inl e) = rw e IsPlain-cn
IsPlain-key key (inr e) = rw e IsPlain-uid

check_id_parts_complete :
    (key id : Str) (is_group : Bool) (rest : DnParts) (m : Message)
    → (key ≡ codes "cn") ⊎ (key ≡ codes "uid")
    → check_id_parts ((key, id) ∷ (codes "ou", ou_of is_group) ∷ rest) (ou_of is_group) m ≡ ok id
unfolding check_id_parts
check_id_parts_complete key id is_group rest m k = ground (
  arith,
  ==_iff key (codes "cn"),
  ==_iff key (codes "uid"),
  ==_refl (codes "ou"),
  ==_refl (ou_of is_group),
)

check_entry_complete :
    (key id dn : Str) (is_group : Bool) (base : DnParts) (base_str : Str)
    → (key ≡ codes "cn") ⊎ (key ≡ codes "uid")
    → is_subtree ((key, id) ∷ (codes "ou", ou_of is_group) ∷ base) base ≡ some true
    → check_entry ((key, id) ∷ (codes "ou", ou_of is_group) ∷ base) dn base base_str is_group
      ≡ ok id
unfolding check_entry
check_entry_complete key id dn is_group base base_str k sub =
    rw (sub, check_entry)
      (ground (
        arith,
        check_id_parts_complete key id is_group base
            (unexpected_dn_format dn (ou_of is_group) base_str) k,
      ))

-- The printed name of an entry gives back the id of the entry, whether the key is `cn` or `uid`,
-- where the id and the attributes of the base are plain: in lower case, trimmed, and without a
-- comma or an equals sign.
pub get_id-entry_dn :
    (key id : Str) (is_group : Bool) (base : DnParts) (base_str : Str)
    → (key ≡ codes "cn") ⊎ (key ≡ codes "uid")
    → IsPlain id
    → All IsPlainRdn base
    → get_id_from_distinguished_name (entry_dn key is_group id base) base base_str is_group ≡ ok id
unfolding get_id_from_distinguished_name
get_id-entry_dn key id is_group base base_str k hid hbase =
    let above : DnParts = (key, id) ∷ (codes "ou", ou_of is_group) ∷ [] in
    let plain : All IsPlainRdn (above ++ base) =
      ((IsPlain-key key k, hid), ((IsPlain-ou, IsPlain-ou_of is_group), hbase)) in
    let parsed = parse-print_dn (key, id) ((codes "ou", ou_of is_group) ∷ base) plain in
    let sub =
      is_subtree_complete above base (plain-lower (above ++ base) plain) (plain-lower base hbase) in
    rw parsed
      (check_entry_complete key id (entry_dn key is_group id base) is_group base base_str k sub)

new_user_id_of_plain : (id : Str) → IsPlain id → new_user_id id ≡ id
unfolding new_case_insensitive
new_user_id_of_plain id h = h.lowered

-- The printed name of a user is read as that user.
pub get_user_id-entry_dn :
    (key id : Str) (base : DnParts) (base_str : Str)
    → (key ≡ codes "cn") ⊎ (key ≡ codes "uid")
    → IsPlain id
    → All IsPlainRdn base
    → get_user_id_from_distinguished_name (entry_dn key false id base) base base_str ≡ ok id
unfolding get_user_id_from_distinguished_name
get_user_id-entry_dn key id base base_str k hid hbase =
    rw (get_id-entry_dn key id false base base_str k hid hbase)
      (ap ok (new_user_id_of_plain id hid))

unit_of_parts :
    (k k' i i' o o' n n' : Str) (b b' : DnParts) (r : LdapResult DnParts)
    → r ≡ ok ((k, i) ∷ (o, n) ∷ b)
    → r ≡ ok ((k', i') ∷ (o', n') ∷ b')
    → n ≡ n'
unit_of_parts k k' i i' o o' n n' b b' r h h' = cc

units_differ : ou_of false ≢ ou_of true
unfolding ◌==◌
units_differ e =
    let same : (ou_of false == ou_of true) ≡ true = (==_iff (ou_of false) (ou_of true)).1 e in cc

-- No name is read as a user and also as a group.
pub user_ne_group :
    (dn : Str) (base : DnParts) (base_str u g : Str)
    → get_user_id_from_distinguished_name dn base base_str ≡ ok u
    → get_group_id_from_distinguished_name dn base base_str ≢ ok g
unfolding get_user_id_from_distinguished_name get_group_id_from_distinguished_name
user_ne_group dn base base_str u g hu hg =
    let (id, found, _) = >>=-eq-ok (get_id_from_distinguished_name dn base base_str false) _ hu in
    let (ps, parsed, (key, _, e)) = get_id_sound dn base base_str false id found in
    let (qs, parsed', (key', _, e')) = get_id_sound dn base base_str true g hg in
    units_differ (
      unit_of_parts key key' id g (codes "ou") (codes "ou") (ou_of false) (ou_of true) base base
        (parse_distinguished_name dn) (parsed ∙ ap ok e) (parsed' ∙ ap ok e'))
