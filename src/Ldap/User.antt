-- ===== src/Ldap/User.antt =====
-- server/src/domain/ldap/user.rs: a user as an LDAP entry.
pub mod Entries
use lldap.Common.{
  ℕ, Bool, true, false, ◌&&◌, ◌||◌, Option, none, some, List, [], ◌∷◌, ◌++◌, map, any, nat_eq,
  length, if◌then◌else◌,
}
use lldap.Common.Result.{Result, ok, err, panic, ◌>>=◌, traverse}
use lldap.Text.{Str, Bytes, codes, ◌==◌}
use lldap.Text.Utf8.{into_bytes}
use lldap.Domain.Types.{
  External, AttributeName, AttributeType, AttributeValue, GroupDetails, User, UserAndGroups,
  new_attribute_name, new_case_insensitive,
}
use lldap.Domain.Handler.{UserColumn}
use lldap.Domain.Schema.{PublicSchema, user_attribute_extractor}
use lldap.Ldap.Error.{LdapResult}
use lldap.Ldap.Dn.{expand_attribute_wildcards}
use lldap.Ldap.Fields.{LdapInfo, UserFieldType, map_user_field, get_custom_attribute}
use lldap.Ldap.Filter.{LdapPartialAttribute, LdapSearchResultEntry, LdapOp}

abbrev pub user_object_classes : List Bytes
user_object_classes =
    codes "inetOrgPerson" ∷ codes "posixAccount" ∷ codes "mailAccount" ∷ codes "person" ∷ []

-- `format!("uid={},ou=people,{}", …)` and `format!("cn={},ou=groups,{}", …)`
unfoldable pub user_dn : Str → Str → Str
user_dn user_id base_dn_str = codes "uid=" ++ (user_id ++ (codes ",ou=people," ++ base_dn_str))

unfoldable pub group_dn : Str → Str → Str
group_dn name base_dn_str = codes "cn=" ++ (name ++ (codes ",ou=groups," ++ base_dn_str))

abbrev pub group_dns : Option (List GroupDetails) → Str → List Bytes
group_dns none base_dn_str = []
group_dns (some gs) base_dn_str = map (λ g. into_bytes (group_dn g.display_name base_dn_str)) gs

-- The end of `get_user_attribute`: one empty value is no value.
unfoldable pub drop_empty : List Bytes → Option (List Bytes)
drop_empty ([] ∷ []) = none
drop_empty vals = some vals

-- An attribute without values is left out of the entry.
abbrev pub push_attribute :
    Str → Option (List Bytes) → List LdapPartialAttribute → LdapResult (List LdapPartialAttribute)
push_attribute a none rest = ok rest
push_attribute a (some vals) rest = ok (record { atype = a; vals = vals } ∷ rest)

module _ ⦃lib : External⦄ where
  -- The arm of a `UserFieldType::PrimaryField`.
  unfoldable pub primary_values : User → UserColumn → LdapResult (Option (List Bytes))
  primary_values user UserColumn.user_id = ok (some (into_bytes user.user_id ∷ []))
  primary_values user UserColumn.email = ok (some (into_bytes user.email ∷ []))
  primary_values user UserColumn.uuid = ok (some (into_bytes user.uuid ∷ []))
  primary_values user UserColumn.display_name = elim user.display_name [
    | none ↦ ok none
    | some name ↦ ok (some (into_bytes name ∷ []))
  ]
  primary_values user UserColumn.creation_date =
      ok (some (into_bytes (lib.to_rfc3339 user.creation_date) ∷ []))
  primary_values user UserColumn.lowercase_email = panic
  primary_values user UserColumn.password_hash = panic
  primary_values user UserColumn.totp_secret = panic
  primary_values user UserColumn.mfa_type = panic

  -- The arm of `UserFieldType::NoMatch`, on the attribute's name.
  unfoldable pub unmatched_values :
      User → AttributeName → List AttributeName → PublicSchema → LdapResult (Option (List Bytes))
  unmatched_values user attribute ignored schema =
      if attribute == codes "1.1" || attribute == codes "+"
      then ok none
      else if attribute == codes "*"
      then panic
      else if any (λ a. a == attribute) ignored
      then ok none
      else get_custom_attribute user_attribute_extractor user.attributes attribute schema

  -- The `match` of `get_user_attribute`, on the field; `none` for the early returns.
  unfoldable pub field_values :
      UserFieldType
      → User
      → AttributeName
      → Str
      → Option (List GroupDetails)
      → List AttributeName
      → PublicSchema
      → LdapResult (Option (List Bytes))
  unfolding primary_values unmatched_values
  field_values UserFieldType.object_class user attribute base_dn_str groups ignored schema =
      ok (some (user_object_classes ++ map into_bytes schema.schema.extra_user_object_classes))
  field_values UserFieldType.dn user attribute base_dn_str groups ignored schema = ok none
  field_values UserFieldType.entry_dn user attribute base_dn_str groups ignored schema =
      ok (some (into_bytes (user_dn user.user_id base_dn_str) ∷ []))
  field_values UserFieldType.member_of user attribute base_dn_str groups ignored schema =
      ok (some (group_dns groups base_dn_str))
  field_values (UserFieldType.primary_field column) user attribute base_dn_str groups ignored
        schema =
      primary_values user column
  field_values (UserFieldType.attribute name t is_list) user attribute base_dn_str groups ignored
        schema =
      get_custom_attribute user_attribute_extractor user.attributes name schema
  field_values UserFieldType.no_match user attribute base_dn_str groups ignored schema =
      unmatched_values user attribute ignored schema

  unfoldable pub get_user_attribute :
      User
      → Str
      → Str
      → Option (List GroupDetails)
      → List AttributeName
      → PublicSchema
      → LdapResult (Option (List Bytes))
  unfolding field_values drop_empty
  get_user_attribute user attribute base_dn_str groups ignored schema = do
    let name = new_attribute_name attribute
    values ← field_values (map_user_field name schema) user name base_dn_str groups ignored schema
    elim values [ none ↦ ok none | some vals ↦ ok (drop_empty vals) ]

  -- The `filter_map` over the attributes asked for.
  unfoldable pub user_entry_attributes :
      User
      → Str
      → List Str
      → Option (List GroupDetails)
      → List AttributeName
      → PublicSchema
      → LdapResult (List LdapPartialAttribute)
  user_entry_attributes user base_dn_str [] groups ignored schema = ok []
  user_entry_attributes user base_dn_str (a ∷ as') groups ignored schema = do
    values ← get_user_attribute user a base_dn_str groups ignored schema
    rest ← user_entry_attributes user base_dn_str as' groups ignored schema
    push_attribute a values rest

  unfoldable pub make_ldap_search_user_result_entry :
      User
      → Str
      → List Str
      → Option (List GroupDetails)
      → List AttributeName
      → PublicSchema
      → LdapResult LdapSearchResultEntry
  make_ldap_search_user_result_entry user base_dn_str expanded groups ignored schema = do
    attributes ← user_entry_attributes user base_dn_str expanded groups ignored schema
    ok (record { dn = user_dn user.user_id base_dn_str; attributes = attributes })

abbrev pub all_user_attribute_keys : List Str
all_user_attribute_keys =
    codes "objectclass"
    ∷ codes "uid"
    ∷ codes "mail"
    ∷ codes "givenname"
    ∷ codes "sn"
    ∷ codes "cn"
    ∷ codes "jpegPhoto"
    ∷ codes "createtimestamp"
    ∷ codes "entryuuid"
    ∷ []

unfoldable pub expand_user_attribute_wildcards : List Str → List Str
expand_user_attribute_wildcards attributes =
    expand_attribute_wildcards attributes all_user_attribute_keys

module _ ⦃lib : External⦄ where
  unfoldable pub convert_users_to_ldap_op :
      List UserAndGroups → List Str → LdapInfo → PublicSchema → LdapResult (List LdapOp)
  unfolding make_ldap_search_user_result_entry
  convert_users_to_ldap_op users attributes info schema =
      let expanded = expand_user_attribute_wildcards attributes in
      traverse
        (λ u. do
          entry ←
              make_ldap_search_user_result_entry u.user info.base_dn_str expanded u.groups
                info.ignored_user_attributes schema
          ok (LdapOp.search_result_entry entry))
        users
