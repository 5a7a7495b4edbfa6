-- ===== src/Ldap/UserFilter.antt =====
-- server/src/domain/ldap/user.rs: LDAP filters as filters of the backend, and the search for users.
pub mod Wrapped
use lldap.Common.{
  Bool, true, false, not, ◌||◌, Option, none, some, List, [], ◌∷◌, any, if◌then◌else◌,
}
use lldap.Common.Result.{Result, ok, err, panic, ◌>>=◌, map_err}
use lldap.Text.{Str, codes, ◌==◌, to_ascii_lowercase}
use lldap.Domain.Types.{
  External, AttributeName, AttributeType, LdapObjectClass, UserAndGroups, new_attribute_name,
  new_user_id, new_case_insensitive,
}
use lldap.Domain.Types.Compare.{eq_ignore_case}
use lldap.Domain.Handler.{UserColumn, UserRequestFilter, UserRequestFilters, user_filter_of_bool}
use lldap.Domain.Deserialize.{deserialize_attribute_value}
use lldap.Domain.Backend.{Backend}
use lldap.Domain.Schema.{PublicSchema}
use lldap.Access.{RestrictedLister, lister_list_users}
use lldap.Ldap.Error.{
  LdapError, LdapResult, LdapResultCode, invalid_attribute_value, unsupported_substring_filter,
  unsupported_filter, user_search_failed,
}
use lldap.Ldap.Dn.{get_user_id_from_distinguished_name, get_group_id_from_distinguished_name}
use lldap.Ldap.Fields.{LdapInfo, UserFieldType, map_user_field}
use lldap.Ldap.Filter.{LdapFilter, LdapFilters, LdapSubstringFilter, sub_string_filter}

abbrev pub is_user_class : Str → Bool
is_user_class value =
    value == codes "person"
    || value == codes "inetorgperson"
    || value == codes "posixaccount"
    || value == codes "mailaccount"

-- `result.map(UserRequestFilter::UserId).unwrap_or_else(|_| false.into())`
abbrev pub user_id_or_false : LdapResult Str → LdapResult UserRequestFilter
user_id_or_false (ok id) = ok (UserRequestFilter.user_id id)
user_id_or_false (err e) = ok (user_filter_of_bool false)
user_id_or_false panic = panic

-- The arm of `LdapFilter::Substring`, on the field.
unfoldable pub substring_user_filter :
    UserFieldType → AttributeName → LdapSubstringFilter → LdapResult UserRequestFilter
substring_user_filter (UserFieldType.primary_field UserColumn.user_id) field f =
    ok (UserRequestFilter.user_id_sub_string (sub_string_filter f))
substring_user_filter (UserFieldType.primary_field UserColumn.creation_date) field f = err (record {
  code = LdapResultCode.unwilling_to_perform;
  message = unsupported_substring_filter field;
})
substring_user_filter (UserFieldType.primary_field UserColumn.uuid) field f = err (record {
  code = LdapResultCode.unwilling_to_perform;
  message = unsupported_substring_filter field;
})
substring_user_filter (UserFieldType.primary_field UserColumn.email) field f =
    ok (UserRequestFilter.sub_string UserColumn.lowercase_email (sub_string_filter f))
substring_user_filter (UserFieldType.primary_field column) field f =
    ok (UserRequestFilter.sub_string column (sub_string_filter f))
substring_user_filter UserFieldType.no_match field f = ok (user_filter_of_bool false)
substring_user_filter _ field f = err (record {
  code = LdapResultCode.unwilling_to_perform;
  message = unsupported_substring_filter field;
})

abbrev pub is_no_match : UserFieldType → Bool
is_no_match UserFieldType.no_match = true
is_no_match _ = false

-- The arm of `LdapFilter::Present`.
unfoldable pub present_user_filter : AttributeName → PublicSchema → UserRequestFilter
present_user_filter field schema = user_filter_of_bool (
    field == codes "objectclass"
    || field == codes "dn"
    || field == codes "distinguishedname"
    || not (is_no_match (map_user_field field schema)))

module _ ⦃lib : External⦄ where
  unfoldable pub get_user_attribute_equality_filter :
      AttributeName → AttributeType → Bool → Str → LdapResult UserRequestFilter
  get_user_attribute_equality_filter field typ is_list value = do
    v ←
        map_err
          (λ e. record { code = LdapResultCode.other; message = invalid_attribute_value field e })
          (deserialize_attribute_value (value ∷ []) typ is_list)
    ok (UserRequestFilter.attribute_equality field v)

  -- The arm of `LdapFilter::Equality`, on the field; `value` is in lower case.
  unfoldable pub equality_user_filter :
      UserFieldType → LdapInfo → Str → PublicSchema → LdapResult UserRequestFilter
  unfolding get_user_attribute_equality_filter
  equality_user_filter (UserFieldType.primary_field UserColumn.user_id) info value schema =
      ok (UserRequestFilter.user_id (new_user_id value))
  equality_user_filter (UserFieldType.primary_field UserColumn.email) info value schema =
      ok (UserRequestFilter.equality UserColumn.lowercase_email value)
  equality_user_filter (UserFieldType.primary_field column) info value schema =
      ok (UserRequestFilter.equality column value)
  equality_user_filter (UserFieldType.attribute name typ is_list) info value schema =
      get_user_attribute_equality_filter name typ is_list value
  equality_user_filter UserFieldType.no_match info value schema = ok (user_filter_of_bool false)
  equality_user_filter UserFieldType.object_class info value schema = ok (
      user_filter_of_bool (
        is_user_class value
        || any (λ c. eq_ignore_case c value) schema.schema.extra_user_object_classes))
  equality_user_filter UserFieldType.member_of info value schema = do
    group ← get_group_id_from_distinguished_name value info.base_dn info.base_dn_str
    ok (UserRequestFilter.member_of group)
  equality_user_filter UserFieldType.entry_dn info value schema =
      user_id_or_false (get_user_id_from_distinguished_name value info.base_dn info.base_dn_str)
  equality_user_filter UserFieldType.dn info value schema =
      user_id_or_false (get_user_id_from_distinguished_name value info.base_dn info.base_dn_str)

  unfoldable mutual
    unfolding equality_user_filter substring_user_filter present_user_filter

    pub convert_user_filter : LdapFilter → LdapInfo → PublicSchema → LdapResult UserRequestFilter
    convert_user_filter (LdapFilter.and fs) info schema = do
      gs ← convert_user_filters fs info schema
      ok (UserRequestFilter.and gs)
    convert_user_filter (LdapFilter.or fs) info schema = do
      gs ← convert_user_filters fs info schema
      ok (UserRequestFilter.or gs)
    convert_user_filter (LdapFilter.not f) info schema = do
      g ← convert_user_filter f info schema
      ok (UserRequestFilter.not g)
    convert_user_filter (LdapFilter.equality field value) info schema =
        equality_user_filter (map_user_field (new_attribute_name field) schema) info
          (to_ascii_lowercase value) schema
    convert_user_filter (LdapFilter.present field) info schema =
        ok (present_user_filter (new_attribute_name field) schema)
    convert_user_filter (LdapFilter.substring field f) info schema =
        substring_user_filter (map_user_field (new_attribute_name field) schema)
          (new_attribute_name field) f
    convert_user_filter (LdapFilter.unsupported k) info schema =
        err (record { code = LdapResultCode.unwilling_to_perform; message = unsupported_filter })

    pub convert_user_filters : LdapFilters → LdapInfo → PublicSchema → LdapResult UserRequestFilters
    convert_user_filters LdapFilters.nil info schema = ok UserRequestFilters.nil
    convert_user_filters (LdapFilters.cons f fs) info schema = do
      g ← convert_user_filter f info schema
      gs ← convert_user_filters fs info schema
      ok (UserRequestFilters.cons g gs)

  unfoldable pub get_user_list :
      {S : Type 0}
      → LdapInfo
      → LdapFilter
      → Bool
      → Str
      → RestrictedLister S
      → PublicSchema
      → S
      → LdapResult (List UserAndGroups)
  get_user_list info filter request_groups base lister schema s = do
    filters ← convert_user_filter filter info schema
    map_err (λ e. record { code = LdapResultCode.other; message = user_search_failed base e })
        (lister_list_users lister (some filters) request_groups s)
