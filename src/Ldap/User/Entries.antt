-- ===== src/Ldap/User/Entries.antt =====
-- Turning users into LDAP entries never panics.
use lldap.Common.{
  ℕ, ◌≡◌, refl, inl, inr, Bool, true, false, Option, none, some, List, [], ◌∷◌, All, find, find-All,
  find-passes, arith, Bool-cases, Option-cases,
}
use lldap.Common.Result.{Succeeds, Succeeds-bind, traverse}
use lldap.Text.{Str, ◌==◌, codes, lower_char, to_ascii_lowercase}
use lldap.Text.Laws.{==_iff}
use lldap.Domain.Types.{
  External, AttributeName, AttributeType, AttributeValue, Decoded, GroupDetails, User,
  UserAndGroups, new_attribute_name, new_case_insensitive,
}
use lldap.Domain.Handler.{UserColumn, get_attribute_type}
use lldap.Domain.Schema.{PublicSchema, Extractor, user_attribute_extractor}
use lldap.Ldap.Error.{LdapError}
use lldap.Ldap.Dn.{is_special}
use lldap.Ldap.Dn.Wildcards.{expand-no_special}
use lldap.Ldap.Fields.{
  LdapInfo, UserFieldType, map_user_field, schema_user_field, match_arms, match_arms-All, user_arms,
  value_bytes, get_custom_attribute,
}
use lldap.Ldap.User.{
  primary_values, unmatched_values, field_values, push_attribute, get_user_attribute,
  user_entry_attributes, all_user_attribute_keys, expand_user_attribute_wildcards,
  convert_users_to_ldap_op,
}

-- A column that has no LDAP attribute.
abbrev pub is_internal : UserColumn → Bool
is_internal UserColumn.lowercase_email = true
is_internal UserColumn.password_hash = true
is_internal UserColumn.totp_secret = true
is_internal UserColumn.mfa_type = true
is_internal _ = false

abbrev pub names_internal : UserFieldType → Bool
names_internal (UserFieldType.primary_field column) = is_internal column
names_internal _ = false

schema_user_field-public :
    (field : AttributeName) (found : Option (AttributeType × Bool))
    → names_internal (schema_user_field field found) ≡ false
schema_user_field-public field none = refl
schema_user_field-public field (some (t, is_list)) = refl

-- No LDAP attribute names an internal column.
pub map_user_field-public :
    (field : AttributeName) (schema : PublicSchema)
    → names_internal (map_user_field field schema) ≡ false
unfolding map_user_field
map_user_field-public field schema = elim (Option-cases (match_arms user_arms field)) [
  | inl missed ↦ rw (missed, map_user_field) (schema_user_field-public field _)
  | inr (t, hit) ↦
      rw (hit, map_user_field)
        (match_arms-All (λ t. names_internal t ≡ false) user_arms field t (ground arith) hit)
]

lower_char-star : (c : ℕ) → lower_char c ≡ b'*' → c ≡ b'*'
lower_char-star c h = ground arith

-- Only "*" is "*" in lower case.
star_of_lower : (s : Str) → to_ascii_lowercase s ≡ codes "*" → s ≡ codes "*"
unfolding to_ascii_lowercase
star_of_lower [] h = cc
star_of_lower (c ∷ []) h = ground (arith, lower_char-star c)
star_of_lower (c ∷ d ∷ s) h = cc

pub lower-ne-star : (a : Str) → is_special a ≡ false → (to_ascii_lowercase a == codes "*") ≡ false
lower-ne-star a h = elim (Bool-cases (to_ascii_lowercase a == codes "*")) [
  | inl star ↦ let e = star_of_lower a ((==_iff _ _).0 star) in ground (arith, ==_iff a (codes "*"))
  | inr other ↦ other
]

pub keys_plain : All (λ a. is_special a ≡ false) all_user_attribute_keys
unfolding ◌==◌
keys_plain = ground arith

module _ ⦃lib : External⦄ where
  -- The stored bytes of every attribute in the schema decode at the type that the schema gives.
  abbrev pub Decodes : Extractor → PublicSchema → AttributeValue → Type 0
  Decodes extractor schema a =
      (t : AttributeType) (is_list : Bool)
      → get_attribute_type (extractor schema) a.name ≡ some (t, is_list)
      → (d : Decoded t is_list) × (lib.deserialize t is_list a.value ≡ some d)

  value_bytes-Succeeds :
      (t : AttributeType) (is_list : Bool) (a : AttributeValue) (d : Decoded t is_list)
      → lib.deserialize t is_list a.value ≡ some d
      → Succeeds (value_bytes {E = LdapError} t is_list a.value)
  unfolding value_bytes
  value_bytes-Succeeds t is_list a d e = rw (e, value_bytes) tt

  pub get_custom_attribute-Succeeds :
      (extractor : Extractor) (attributes : List AttributeValue) (name : AttributeName)
      (schema : PublicSchema)
      → All (Decodes extractor schema) attributes
      → Succeeds (get_custom_attribute {E = LdapError} extractor attributes name schema)
  unfolding get_custom_attribute
  get_custom_attribute-Succeeds extractor attributes name schema h =
      elim (Option-cases (get_attribute_type (extractor schema) name)) [
        | inl missing ↦ rw (missing, get_custom_attribute) tt
        | inr ((t, is_list), known) ↦ elim (Option-cases (find (λ a. a.name == name) attributes)) [
          | inl absent ↦ rw (known, absent, get_custom_attribute) tt
          | inr (a, found) ↦
              let same =
                (==_iff a.name name).0 (find-passes (λ a. a.name == name) attributes a found) in
              let (d, e) =
                find-All _ (λ a. a.name == name) attributes a h found t is_list (rw same known) in
              rw (known, found, get_custom_attribute)
                (Succeeds-bind (value_bytes t is_list a.value) _
                  (value_bytes-Succeeds t is_list a d e) (λ _. tt))
        ]
      ]

  -- What makes a list of users fit to be shown.
  abbrev pub UserDecodes : PublicSchema → User → Type 0
  UserDecodes schema user = All (Decodes user_attribute_extractor schema) user.attributes

  primary_values-Succeeds :
      (user : User) (column : UserColumn)
      → is_internal column ≡ false
      → Succeeds (primary_values user column)
  unfolding primary_values
  primary_values-Succeeds user UserColumn.display_name h = ground arith
  primary_values-Succeeds user _ h = ground arith

  unmatched_values-Succeeds :
      (user : User) (a : Str) (ignored : List AttributeName) (schema : PublicSchema)
      → is_special a ≡ false
      → UserDecodes schema user
      → Succeeds (unmatched_values user (new_attribute_name a) ignored schema)
  unfolding unmatched_values new_case_insensitive
  unmatched_values-Succeeds user a ignored schema n h = ground (
    arith,
    lower-ne-star a n,
    get_custom_attribute-Succeeds user_attribute_extractor user.attributes (to_ascii_lowercase a)
        schema h,
  )

  field_values-Succeeds :
      (t : UserFieldType) (user : User) (a : Str) (base : Str) (groups : Option (List GroupDetails))
      (ignored : List AttributeName) (schema : PublicSchema)
      → names_internal t ≡ false
      → is_special a ≡ false
      → UserDecodes schema user
      → Succeeds (field_values t user (new_attribute_name a) base groups ignored schema)
  unfolding field_values
  field_values-Succeeds (UserFieldType.primary_field column) user a base groups ignored schema k n
        h =
      primary_values-Succeeds user column k
  field_values-Succeeds (UserFieldType.attribute name t l) user a base groups ignored schema k n h =
      get_custom_attribute-Succeeds user_attribute_extractor user.attributes name schema h
  field_values-Succeeds UserFieldType.no_match user a base groups ignored schema k n h =
      unmatched_values-Succeeds user a ignored schema n h
  field_values-Succeeds _ user a base groups ignored schema k n h = tt

  get_user_attribute-Succeeds :
      (user : User) (a : Str) (base : Str) (groups : Option (List GroupDetails))
      (ignored : List AttributeName) (schema : PublicSchema)
      → is_special a ≡ false
      → UserDecodes schema user
      → Succeeds (get_user_attribute user a base groups ignored schema)
  unfolding get_user_attribute
  get_user_attribute-Succeeds user a base groups ignored schema n h =
      Succeeds-bind _ _
        (field_values-Succeeds (map_user_field (new_attribute_name a) schema) user a base groups
          ignored schema (map_user_field-public (new_attribute_name a) schema) n h)
        (elim [ none ↦ tt | some vals ↦ tt ])

  entry_attributes-Succeeds :
      (user : User) (base : Str) (names : List Str) (groups : Option (List GroupDetails))
      (ignored : List AttributeName) (schema : PublicSchema)
      → All (λ a. is_special a ≡ false) names
      → UserDecodes schema user
      → Succeeds (user_entry_attributes user base names groups ignored schema)
  unfolding user_entry_attributes
  entry_attributes-Succeeds user base [] groups ignored schema n h = tt
  entry_attributes-Succeeds user base (a ∷ names) groups ignored schema (n, ns) h =
      Succeeds-bind _ _ (get_user_attribute-Succeeds user a base groups ignored schema n h)
        (λ values.
          Succeeds-bind _ _ (entry_attributes-Succeeds user base names groups ignored schema ns h)
            (λ rest. elim values as (λ v. Succeeds (push_attribute a v rest)) [
              | none ↦ tt
              | some vals ↦ tt
            ]))

  -- Whatever attributes are asked for, "*" and unknown ones included, and whatever the schema,
  -- users whose stored attributes decode are turned into entries: nothing fails or panics.
  pub convert_users-Succeeds :
      (users : List UserAndGroups) (attributes : List Str) (info : LdapInfo) (schema : PublicSchema)
      → All (λ u. UserDecodes schema u.user) users
      → Succeeds (convert_users_to_ldap_op users attributes info schema)
  unfolding convert_users_to_ldap_op traverse expand_user_attribute_wildcards
  convert_users-Succeeds [] attributes info schema h = tt
  convert_users-Succeeds (u ∷ us) attributes info schema (h, hs) =
      let plain = expand-no_special attributes all_user_attribute_keys keys_plain in
      Succeeds-bind _ _
        (Succeeds-bind _ _
          (Succeeds-bind _ _
            (entry_attributes-Succeeds u.user info.base_dn_str
              (expand_user_attribute_wildcards attributes) u.groups info.ignored_user_attributes
              schema plain h)
            (λ as'. tt))
          (λ e. tt))
        (λ op. Succeeds-bind _ _ (convert_users-Succeeds us attributes info schema hs) (λ ops. tt))
