-- ===== src/Ldap/GroupFilter.antt =====
-- server/src/domain/ldap/group.rs: LDAP filters as filters of the backend, and the search for groups.
pub mod Totality
use lldap.Common.{Bool, true, false, not, ◌||◌, Option, none, some, List, [], ◌∷◌, any}
use lldap.Common.Result.{Result, ok, err, panic, ◌>>=◌, map_err, ok_or}
use lldap.Text.{Str, codes, ◌==◌, to_ascii_lowercase}
use lldap.Domain.Types.{
  External, AttributeName, AttributeType, Group, new_attribute_name, uuid_of_str,
}
use lldap.Domain.Types.Compare.{eq_ignore_case}
use lldap.Domain.Handler.{GroupRequestFilter, GroupRequestFilters, group_filter_of_bool}
use lldap.Domain.Deserialize.{deserialize_attribute_value}
use lldap.Domain.Schema.{PublicSchema}
use lldap.Access.{RestrictedLister, lister_list_groups}
use lldap.Ldap.Error.{
  LdapError, LdapResult, LdapResultCode, invalid_attribute_value, unsupported_substring_filter,
  unsupported_filter, group_search_failed, invalid_uuid, creation_date_unsupported,
}
use lldap.Ldap.Dn.{get_user_id_from_distinguished_name, get_group_id_from_distinguished_name}
use lldap.Ldap.Fields.{LdapInfo, GroupFieldType, map_group_field}
use lldap.Ldap.Filter.{LdapFilter, LdapFilters, LdapSubstringFilter, sub_string_filter}

abbrev pub is_group_class : Str → Bool
is_group_class value = value == codes "groupofuniquenames" || value == codes "groupofnames"

-- `result.map(GroupRequestFilter::DisplayName).unwrap_or_else(|_| false.into())`
abbrev pub display_name_or_false : LdapResult Str → LdapResult GroupRequestFilter
display_name_or_false (ok name) = ok (GroupRequestFilter.display_name name)
display_name_or_false (err e) = ok (group_filter_of_bool false)
display_name_or_false panic = panic

unfoldable pub substring_group_filter :
    GroupFieldType → AttributeName → LdapSubstringFilter → LdapResult GroupRequestFilter
substring_group_filter GroupFieldType.display_name field f =
    ok (GroupRequestFilter.display_name_sub_string (sub_string_filter f))
substring_group_filter GroupFieldType.no_match field f = ok (group_filter_of_bool false)
substring_group_filter _ field f = err (record {
  code = LdapResultCode.unwilling_to_perform;
  message = unsupported_substring_filter field;
})

abbrev pub is_no_match : GroupFieldType → Bool
is_no_match GroupFieldType.no_match = true
is_no_match _ = false

module _ ⦃lib : External⦄ where
  unfoldable pub get_group_attribute_equality_filter :
      AttributeName → AttributeType → Bool → Str → LdapResult GroupRequestFilter
  get_group_attribute_equality_filter field typ is_list value = do
    v ←
        map_err
          (λ e. record { code = LdapResultCode.other; message = invalid_attribute_value field e })
          (deserialize_attribute_value (value ∷ []) typ is_list)
    ok (GroupRequestFilter.attribute_equality field v)

  -- The arm of `LdapFilter::Equality`, on the field; `value` is in lower case.
  unfoldable pub equality_group_filter :
      GroupFieldType → LdapInfo → Str → PublicSchema → LdapResult GroupRequestFilter
  unfolding get_group_attribute_equality_filter
  equality_group_filter GroupFieldType.display_name info value schema =
      ok (GroupRequestFilter.display_name value)
  equality_group_filter GroupFieldType.uuid info value schema = do
    id ←
        ok_or (record { code = LdapResultCode.inappropriate_matching; message = invalid_uuid })
          (uuid_of_str value)
    ok (GroupRequestFilter.uuid id)
  equality_group_filter GroupFieldType.member info value schema = do
    user_name ← get_user_id_from_distinguished_name value info.base_dn info.base_dn_str
    ok (GroupRequestFilter.member user_name)
  equality_group_filter GroupFieldType.object_class info value schema = ok (
      group_filter_of_bool (
        is_group_class value
        || any (λ c. eq_ignore_case c value) schema.schema.extra_group_object_classes))
  equality_group_filter GroupFieldType.dn info value schema =
      display_name_or_false
        (get_group_id_from_distinguished_name value info.base_dn info.base_dn_str)
  equality_group_filter GroupFieldType.entry_dn info value schema =
      display_name_or_false
        (get_group_id_from_distinguished_name value info.base_dn info.base_dn_str)
  equality_group_filter GroupFieldType.no_match info value schema = ok (group_filter_of_bool false)
  equality_group_filter (GroupFieldType.attribute name typ is_list) info value schema =
      get_group_attribute_equality_filter name typ is_list value
  equality_group_filter GroupFieldType.creation_date info value schema =
      err
        (record { code = LdapResultCode.unwilling_to_perform; message = creation_date_unsupported })

  unfoldable mutual
    unfolding equality_group_filter substring_group_filter

    pub convert_group_filter : LdapFilter → LdapInfo → PublicSchema → LdapResult GroupRequestFilter
    convert_group_filter (LdapFilter.equality field value) info schema =
        equality_group_filter (map_group_field (new_attribute_name field) schema) info
          (to_ascii_lowercase value) schema
    convert_group_filter (LdapFilter.and fs) info schema = do
      gs ← convert_group_filters fs info schema
      ok (GroupRequestFilter.and gs)
    convert_group_filter (LdapFilter.or fs) info schema = do
      gs ← convert_group_filters fs info schema
      ok (GroupRequestFilter.or gs)
    convert_group_filter (LdapFilter.not f) info schema = do
      g ← convert_group_filter f info schema
      ok (GroupRequestFilter.not g)
    convert_group_filter (LdapFilter.present field) info schema = ok (
        group_filter_of_bool
          (not (is_no_match (map_group_field (new_attribute_name field) schema))))
    convert_group_filter (LdapFilter.substring field f) info schema =
        substring_group_filter (map_group_field (new_attribute_name field) schema)
          (new_attribute_name field) f
    convert_group_filter (LdapFilter.unsupported k) info schema =
        err (record { code = LdapResultCode.unwilling_to_perform; message = unsupported_filter })

    pub convert_group_filters :
        LdapFilters → LdapInfo → PublicSchema → LdapResult GroupRequestFilters
    convert_group_filters LdapFilters.nil info schema = ok GroupRequestFilters.nil
    convert_group_filters (LdapFilters.cons f fs) info schema = do
      g ← convert_group_filter f info schema
      gs ← convert_group_filters fs info schema
      ok (GroupRequestFilters.cons g gs)

  unfoldable pub get_groups_list :
      {S : Type 0}
      → LdapInfo
      → LdapFilter
      → Str
      → RestrictedLister S
      → PublicSchema
      → S
      → LdapResult (List Group)
  get_groups_list info filter base lister schema s = do
    filters ← convert_group_filter filter info schema
    map_err (λ e. record { code = LdapResultCode.other; message = group_search_failed base e })
        (lister_list_groups lister (some filters) s)
