-- ===== src/Ldap/Group.antt =====
-- server/src/domain/ldap/group.rs: a group as an LDAP entry.
pub mod Members
pub mod Entries
use lldap.Common.{
  Bool, true, false, ◌||◌, Option, none, some, List, [], ◌∷◌, ◌++◌, map, any, retain, if◌then◌else◌,
}
use lldap.Common.Result.{Result, ok, err, panic, ◌>>=◌, traverse}
use lldap.Text.{Str, Bytes, codes, ◌==◌}
use lldap.Text.Utf8.{into_bytes}
use lldap.Domain.Types.{External, AttributeName, Group, UserId, new_attribute_name}
use lldap.Domain.Schema.{PublicSchema, group_attribute_extractor}
use lldap.Ldap.Error.{LdapResult}
use lldap.Ldap.Dn.{expand_attribute_wildcards}
use lldap.Ldap.Fields.{LdapInfo, GroupFieldType, map_group_field, get_custom_attribute}
use lldap.Ldap.Filter.{LdapPartialAttribute, LdapSearchResultEntry, LdapOp}
use lldap.Ldap.User.{user_dn, group_dn, drop_empty, push_attribute}

-- `format!("uid={},ou=groups,{}", …)` of the attribute `entrydn`.
unfoldable pub group_entry_dn : Str → Str → Str
group_entry_dn name base_dn_str = codes "uid=" ++ (name ++ (codes ",ou=groups," ++ base_dn_str))

-- The members that a restricted user may see: only itself.
abbrev pub shows : Option UserId → UserId → Bool
shows none u = true
shows (some f) u = u == f

unfoldable pub visible_members : Option UserId → List UserId → List UserId
unfolding retain
visible_members user_filter users = retain (shows user_filter) users

module _ ⦃lib : External⦄ where
  unfoldable pub unmatched_values :
      Group → AttributeName → List AttributeName → PublicSchema → LdapResult (Option (List Bytes))
  unmatched_values group attribute ignored schema =
      if attribute == codes "1.1" || attribute == codes "+"
      then ok none
      else if attribute == codes "*"
      then panic
      else if any (λ a. a == attribute) ignored
      then ok none
      else get_custom_attribute group_attribute_extractor group.attributes attribute schema

  -- The `match` of `get_group_attribute`, on the field; `none` for the early returns.
  unfoldable pub field_values :
      GroupFieldType
      → Group
      → Str
      → AttributeName
      → Option UserId
      → List AttributeName
      → PublicSchema
      → LdapResult (Option (List Bytes))
  unfolding unmatched_values visible_members
  field_values GroupFieldType.object_class group base_dn_str attribute user_filter ignored schema =
      ok (
        some (codes "groupOfUniqueNames" ∷ map into_bytes schema.schema.extra_group_object_classes))
  field_values GroupFieldType.dn group base_dn_str attribute user_filter ignored schema = ok none
  field_values GroupFieldType.entry_dn group base_dn_str attribute user_filter ignored schema =
      ok (some (into_bytes (group_entry_dn group.display_name base_dn_str) ∷ []))
  field_values GroupFieldType.display_name group base_dn_str attribute user_filter ignored schema =
      ok (some (into_bytes group.display_name ∷ []))
  field_values GroupFieldType.creation_date group base_dn_str attribute user_filter ignored schema =
      ok (some (into_bytes (lib.to_rfc3339 group.creation_date) ∷ []))
  field_values GroupFieldType.member group base_dn_str attribute user_filter ignored schema = ok (
      some
        (map (λ u. into_bytes (user_dn u base_dn_str)) (visible_members user_filter group.users)))
  field_values GroupFieldType.uuid group base_dn_str attribute user_filter ignored schema =
      ok (some (into_bytes group.uuid ∷ []))
  field_values (GroupFieldType.attribute name t is_list) group base_dn_str attribute user_filter
        ignored schema =
      get_custom_attribute group_attribute_extractor group.attributes name schema
  field_values GroupFieldType.no_match group base_dn_str attribute user_filter ignored schema =
      unmatched_values group attribute ignored schema

  unfoldable pub get_group_attribute :
      Group
      → Str
      → Str
      → Option UserId
      → List AttributeName
      → PublicSchema
      → LdapResult (Option (List Bytes))
  unfolding field_values drop_empty
  get_group_attribute group base_dn_str attribute user_filter ignored schema = do
    let name = new_attribute_name attribute
    values ←
        field_values (map_group_field name schema) group base_dn_str name user_filter ignored schema
    elim values [ none ↦ ok none | some vals ↦ ok (drop_empty vals) ]

  unfoldable pub group_entry_attributes :
      Group
      → Str
      → List Str
      → Option UserId
      → List AttributeName
      → PublicSchema
      → LdapResult (List LdapPartialAttribute)
  group_entry_attributes group base_dn_str [] user_filter ignored schema = ok []
  group_entry_attributes group base_dn_str (a ∷ as') user_filter ignored schema = do
    values ← get_group_attribute group base_dn_str a user_filter ignored schema
    rest ← group_entry_attributes group base_dn_str as' user_filter ignored schema
    push_attribute a values rest

  unfoldable pub make_ldap_search_group_result_entry :
      Group
      → Str
      → List Str
      → Option UserId
      → List AttributeName
      → PublicSchema
      → LdapResult LdapSearchResultEntry
  make_ldap_search_group_result_entry group base_dn_str expanded user_filter ignored schema = do
    attributes ← group_entry_attributes group base_dn_str expanded user_filter ignored schema
    ok (record { dn = group_dn group.display_name base_dn_str; attributes = attributes })

abbrev pub all_group_attribute_keys : List Str
all_group_attribute_keys =
    codes "objectclass"
    ∷ codes "uid"
    ∷ codes "cn"
    ∷ codes "member"
    ∷ codes "uniquemember"
    ∷ codes "entryuuid"
    ∷ []

unfoldable pub expand_group_attribute_wildcards : List Str → List Str
expand_group_attribute_wildcards attributes =
    expand_attribute_wildcards attributes all_group_attribute_keys

module _ ⦃lib : External⦄ where
  unfoldable pub convert_groups_to_ldap_op :
      List Group → List Str → LdapInfo → Option UserId → PublicSchema → LdapResult (List LdapOp)
  unfolding make_ldap_search_group_result_entry
  convert_groups_to_ldap_op groups attributes info user_filter schema =
      let expanded = expand_group_attribute_wildcards attributes in
      traverse
        (λ g. do
          entry ←
              make_ldap_search_group_result_entry g info.base_dn_str expanded user_filter
                info.ignored_group_attributes schema
          ok (LdapOp.search_result_entry entry))
        groups
