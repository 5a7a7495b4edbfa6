-- ===== src/Ldap/GroupFilter/Totality.antt =====
-- Converting an LDAP filter to a filter of groups never panics.
use lldap.Common.{◌≡◌, Bool, true, false, all, arith}
use lldap.Common.Result.{ok, err, panic, Ends, Ends-bind}
use lldap.Text.{Str, to_ascii_lowercase}
use lldap.Text.Laws.{to_ascii_lowercase_idem}
use lldap.Domain.Types.{External, AttributeName, AttributeType, new_attribute_name}
use lldap.Domain.Handler.{GroupRequestFilter}
use lldap.Domain.Deserialize.{deserialize_attribute_value}
use lldap.Domain.Schema.{PublicSchema}
use lldap.Ldap.Error.{LdapResult}
use lldap.Ldap.Dn.{rdn_is_lower}
use lldap.Ldap.Dn.Totality.{IsLower, get_user_id-Ends, get_group_id-Ends}
use lldap.Ldap.Fields.{LdapInfo, GroupFieldType, map_group_field}
use lldap.Ldap.Filter.{LdapFilter, LdapFilters, LdapSubstringFilter}
use lldap.Ldap.UserFilter.Wrapped.{parse_element-Ends}
use lldap.Ldap.GroupFilter.{
  display_name_or_false, substring_group_filter, get_group_attribute_equality_filter,
  equality_group_filter, convert_group_filter, convert_group_filters,
}

abbrev pub Converts : LdapResult GroupRequestFilter → Type 0
Converts r = Ends (λ _. Unit {0}) r

display_name_or_false-Ends :
    (r : LdapResult Str) → Ends (λ _. Unit {0}) r → Converts (display_name_or_false r)
display_name_or_false-Ends (ok id) h = tt
display_name_or_false-Ends (err e) h = tt
display_name_or_false-Ends panic h = h

substring-Ends :
    (t : GroupFieldType) (field : AttributeName) (f : LdapSubstringFilter)
    → Converts (substring_group_filter t field f)
unfolding substring_group_filter
substring-Ends GroupFieldType.no_match field f = tt
substring-Ends GroupFieldType.display_name field f = tt
substring-Ends _ field f = tt

module _ ⦃lib : External⦄ where
  attribute-Ends :
      (name : AttributeName) (t : AttributeType) (is_list : Bool) (v : Str)
      → Converts (get_group_attribute_equality_filter name t is_list v)
  unfolding get_group_attribute_equality_filter deserialize_attribute_value
  attribute-Ends name t false v = ground (arith, parse_element-Ends t v)
  attribute-Ends name t true v = ground (arith, parse_element-Ends t v)

  equality-Ends :
      (t : GroupFieldType) (info : LdapInfo) (value : Str) (schema : PublicSchema)
      → all rdn_is_lower info.base_dn ≡ true
      → IsLower value
      → Converts (equality_group_filter t info value schema)
  unfolding equality_group_filter
  equality-Ends GroupFieldType.uuid info value schema hb hv = ground arith
  equality-Ends GroupFieldType.member info value schema hb hv =
      Ends-bind (λ _. Unit {0}) (λ _. Unit {0}) _ _
        (get_user_id-Ends value info.base_dn info.base_dn_str hv hb) (λ u _. tt)
  equality-Ends GroupFieldType.dn info value schema hb hv =
      display_name_or_false-Ends _ (get_group_id-Ends value info.base_dn info.base_dn_str hv hb)
  equality-Ends GroupFieldType.entry_dn info value schema hb hv =
      display_name_or_false-Ends _ (get_group_id-Ends value info.base_dn info.base_dn_str hv hb)
  equality-Ends (GroupFieldType.attribute name t l) info value schema hb hv =
      attribute-Ends name t l value
  equality-Ends _ info value schema hb hv = tt

  mutual
    unfolding convert_group_filter

    convert-Ends :
        (f : LdapFilter) (info : LdapInfo) (schema : PublicSchema)
        → all rdn_is_lower info.base_dn ≡ true
        → Converts (convert_group_filter f info schema)
    convert-Ends (LdapFilter.and fs) info schema hb =
        Ends-bind (λ _. Unit {0}) (λ _. Unit {0}) _ _ (converts-Ends fs info schema hb) (λ gs _. tt)
    convert-Ends (LdapFilter.or fs) info schema hb =
        Ends-bind (λ _. Unit {0}) (λ _. Unit {0}) _ _ (converts-Ends fs info schema hb) (λ gs _. tt)
    convert-Ends (LdapFilter.not f) info schema hb =
        Ends-bind (λ _. Unit {0}) (λ _. Unit {0}) _ _ (convert-Ends f info schema hb) (λ g _. tt)
    convert-Ends (LdapFilter.equality field value) info schema hb =
        equality-Ends (map_group_field (new_attribute_name field) schema) info
          (to_ascii_lowercase value) schema hb (to_ascii_lowercase_idem value)
    convert-Ends (LdapFilter.present field) info schema hb = tt
    convert-Ends (LdapFilter.substring field f) info schema hb =
        substring-Ends (map_group_field (new_attribute_name field) schema)
          (new_attribute_name field) f
    convert-Ends (LdapFilter.unsupported k) info schema hb = tt

    converts-Ends :
        (fs : LdapFilters) (info : LdapInfo) (schema : PublicSchema)
        → all rdn_is_lower info.base_dn ≡ true
        → Ends (λ _. Unit {0}) (convert_group_filters fs info schema)
    converts-Ends LdapFilters.nil info schema hb = tt
    converts-Ends (LdapFilters.cons f fs) info schema hb =
        Ends-bind (λ _. Unit {0}) (λ _. Unit {0}) _ _ (convert-Ends f info schema hb)
          (λ g _.
            Ends-bind (λ _. Unit {0}) (λ _. Unit {0}) _ _ (converts-Ends fs info schema hb)
              (λ gs _. tt))

  -- Under a base in lower case, converting a filter to one of groups returns a filter or an error:
  -- it never panics.
  pub convert_group_filter-Ends :
      (f : LdapFilter) (info : LdapInfo) (schema : PublicSchema)
      → all rdn_is_lower info.base_dn ≡ true
      → Converts (convert_group_filter f info schema)
  convert_group_filter-Ends f info schema hb = convert-Ends f info schema hb
