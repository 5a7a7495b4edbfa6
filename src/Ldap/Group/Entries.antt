-- ===== src/Ldap/Group/Entries.antt =====
-- Turning groups into LDAP entries never panics.
use lldap.Common.{◌≡◌, false, Option, none, some, List, [], ◌∷◌, All, arith}
use lldap.Common.Result.{Succeeds, Succeeds-bind, traverse}
use lldap.Text.{Str, ◌==◌, to_ascii_lowercase}
use lldap.Domain.Types.{
  External, AttributeName, Group, UserId, new_attribute_name, new_case_insensitive,
}
use lldap.Domain.Schema.{PublicSchema, group_attribute_extractor}
use lldap.Ldap.Dn.{is_special}
use lldap.Ldap.Dn.Wildcards.{expand-no_special}
use lldap.Ldap.Fields.{LdapInfo, GroupFieldType, map_group_field}
use lldap.Ldap.User.{push_attribute}
use lldap.Ldap.User.Entries.{Decodes, lower-ne-star, get_custom_attribute-Succeeds}
use lldap.Ldap.Group.{
  unmatched_values, field_values, get_group_attribute, group_entry_attributes,
  all_group_attribute_keys, expand_group_attribute_wildcards, convert_groups_to_ldap_op,
}

keys_plain : All (λ a. is_special a ≡ false) all_group_attribute_keys
unfolding ◌==◌
keys_plain = ground arith

module _ ⦃lib : External⦄ where
  -- What makes a list of groups fit to be shown.
  abbrev pub GroupDecodes : PublicSchema → Group → Type 0
  GroupDecodes schema g = All (Decodes group_attribute_extractor schema) g.attributes

  unmatched_values-Succeeds :
      (g : Group) (a : Str) (ignored : List AttributeName) (schema : PublicSchema)
      → is_special a ≡ false
      → GroupDecodes schema g
      → Succeeds (unmatched_values g (new_attribute_name a) ignored schema)
  unfolding unmatched_values new_case_insensitive
  unmatched_values-Succeeds g a ignored schema n h = ground (
    arith,
    lower-ne-star a n,
    get_custom_attribute-Succeeds group_attribute_extractor g.attributes (to_ascii_lowercase a)
        schema h,
  )

  field_values-Succeeds :
      (t : GroupFieldType) (g : Group) (base : Str) (a : Str) (u : Option UserId)
      (ignored : List AttributeName) (schema : PublicSchema)
      → is_special a ≡ false
      → GroupDecodes schema g
      → Succeeds (field_values t g base (new_attribute_name a) u ignored schema)
  unfolding field_values
  field_values-Succeeds (GroupFieldType.attribute name t l) g base a u ignored schema n h =
      get_custom_attribute-Succeeds group_attribute_extractor g.attributes name schema h
  field_values-Succeeds GroupFieldType.no_match g base a u ignored schema n h =
      unmatched_values-Succeeds g a ignored schema n h
  field_values-Succeeds _ g base a u ignored schema n h = tt

  get_group_attribute-Succeeds :
      (g : Group) (base : Str) (a : Str) (u : Option UserId) (ignored : List AttributeName)
      (schema : PublicSchema)
      → is_special a ≡ false
      → GroupDecodes schema g
      → Succeeds (get_group_attribute g base a u ignored schema)
  unfolding get_group_attribute
  get_group_attribute-Succeeds g base a u ignored schema n h =
      Succeeds-bind _ _
        (field_values-Succeeds (map_group_field (new_attribute_name a) schema) g base a u ignored
          schema n h)
        (elim [ none ↦ tt | some vals ↦ tt ])

  entry_attributes-Succeeds :
      (g : Group) (base : Str) (names : List Str) (u : Option UserId) (ignored : List AttributeName)
      (schema : PublicSchema)
      → All (λ a. is_special a ≡ false) names
      → GroupDecodes schema g
      → Succeeds (group_entry_attributes g base names u ignored schema)
  unfolding group_entry_attributes
  entry_attributes-Succeeds g base [] u ignored schema n h = tt
  entry_attributes-Succeeds g base (a ∷ names) u ignored schema (n, ns) h =
      Succeeds-bind _ _ (get_group_attribute-Succeeds g base a u ignored schema n h) (λ values.
        Succeeds-bind _ _ (entry_attributes-Succeeds g base names u ignored schema ns h) (λ rest.
          elim values as (λ v. Succeeds (push_attribute a v rest)) [ none ↦ tt | some vals ↦ tt ]))

  -- Whatever attributes are asked for, and whatever the schema and the restriction to a user, groups
  -- whose stored attributes decode are turned into entries: nothing fails or panics.
  pub convert_groups-Succeeds :
      (groups : List Group) (attributes : List Str) (info : LdapInfo) (u : Option UserId)
      (schema : PublicSchema)
      → All (GroupDecodes schema) groups
      → Succeeds (convert_groups_to_ldap_op groups attributes info u schema)
  unfolding convert_groups_to_ldap_op traverse expand_group_attribute_wildcards
  convert_groups-Succeeds [] attributes info u schema h = tt
  convert_groups-Succeeds (g ∷ gs) attributes info u schema (h, hs) =
      let plain = expand-no_special attributes all_group_attribute_keys keys_plain in
      Succeeds-bind _ _
        (Succeeds-bind _ _
          (Succeeds-bind _ _
            (entry_attributes-Succeeds g info.base_dn_str
              (expand_group_attribute_wildcards attributes) u info.ignored_group_attributes schema
              plain h)
            (λ as'. tt))
          (λ e. tt))
        (λ op.
          Succeeds-bind _ _ (convert_groups-Succeeds gs attributes info u schema hs) (λ ops. tt))
