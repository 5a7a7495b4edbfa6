-- ===== src/Examples/Names.antt =====
-- The theorems on names, at the names of a small directory.
use lldap.Common.{true, false, ◌≡◌, ◌↔◌, inr, refl, List, [], ◌∷◌, all, any}
use lldap.Common.Result.{ok, Ends}
use lldap.Text.{Str, codes, join, ◌==◌, to_ascii_lowercase}
use lldap.Domain.Types.Compare.{eq_ignore_case, fold_case, eq_ignore_case_iff}
use lldap.Ldap.Dn.{
  DnParts, rdn_is_lower, is_special, parse_distinguished_name, get_id_from_distinguished_name,
}
use lldap.Ldap.Dn.Ids.{IsEntry, get_id_sound, get_id-entry_dn}
use lldap.Ldap.Dn.Parsing.{print_dn, parse-print_dn}
use lldap.Ldap.Dn.Totality.{IsLower, get_id-Ends}
use lldap.Examples.World.{ascii, ann, ann_dn, ann-IsPlain, base_plain, base_lower, info}

-- "ou=people,dc=org"
abbrev unit_dn : DnParts
unit_dn = (codes "ou", codes "people") ∷ info.base_dn

unit_lower : all rdn_is_lower unit_dn ≡ true
unfolding ◌==◌ to_ascii_lowercase
unit_lower = refl

ann_dn-IsLower : IsLower ann_dn
unfolding to_ascii_lowercase print_dn join
ann_dn-IsLower = refl

abbrev asked : List Str
asked = codes "cn" ∷ codes "CN" ∷ codes "*" ∷ []

get_id-entry_dn_example :
    get_id_from_distinguished_name ann_dn info.base_dn info.base_dn_str false ≡ ok ann
get_id-entry_dn_example =
    get_id-entry_dn (codes "uid") ann false info.base_dn info.base_dn_str (inr refl) ann-IsPlain
      base_plain

get_id_sound_example :
    (parts : DnParts) × (parse_distinguished_name ann_dn ≡ ok parts)
    × IsEntry false ann info.base_dn parts
get_id_sound_example = get_id_sound ann_dn info.base_dn info.base_dn_str false ann (
    get_id-entry_dn (codes "uid") ann false info.base_dn info.base_dn_str (inr refl) ann-IsPlain
      base_plain)

get_id-Ends_example :
    Ends (λ _. Unit {0}) (get_id_from_distinguished_name ann_dn info.base_dn info.base_dn_str true)
get_id-Ends_example =
    get_id-Ends ann_dn info.base_dn info.base_dn_str true ann_dn-IsLower base_lower

parse-print_dn_example : parse_distinguished_name (print_dn info.base_dn) ≡ ok info.base_dn
parse-print_dn_example = parse-print_dn (codes "dc", codes "org") [] base_plain

cn_asked : any (λ x. x == codes "cn") asked ≡ true
unfolding ◌==◌
cn_asked = refl

cn_plain : is_special (codes "cn") ≡ false
unfolding ◌==◌
cn_plain = refl

eq_ignore_case_iff_example :
    (eq_ignore_case (codes "Staff") (codes "staff") ≡ true)
    ↔ (fold_case (codes "Staff") ≡ fold_case (codes "staff"))
eq_ignore_case_iff_example = eq_ignore_case_iff (codes "Staff") (codes "staff")
