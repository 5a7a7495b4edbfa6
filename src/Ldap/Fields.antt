-- ===== src/Ldap/Fields.antt =====
-- server/src/domain/ldap/utils.rs: the names of LDAP attributes, the attributes they stand for, and
-- the values of the attributes of the schema.
use lldap.Common.{
  ◌≡◌, inl, inr, Bool, true, false, Option, none, some, List, [], ◌∷◌, map, find, any, All,
  Bool-cases, if◌then◌else◌,
}
use mathlib.Core.Path.{subst}
use lldap.Common.Int.{to_decimal}
use lldap.Common.Result.{Result, ok, panic, ◌>>=◌}
use lldap.Text.{Str, Bytes, codes, ◌==◌}
use lldap.Text.Utf8.{into_bytes}
use lldap.Domain.Types.{
  External, AttributeName, AttributeType, AttributeValue, Element, Decoded, Serialized,
}
use lldap.Domain.Handler.{UserColumn, get_attribute_type}
use lldap.Domain.Schema.{
  PublicSchema, Extractor, user_attribute_extractor, group_attribute_extractor,
}
use lldap.Ldap.Dn.{DnParts}

pub record LdapInfo : Type 0 where
  pub base_dn : DnParts
  pub base_dn_str : Str
  pub ignored_user_attributes : List AttributeName
  pub ignored_group_attributes : List AttributeName

pub data UserFieldType : Type 0 where
  no_match object_class member_of dn entry_dn : UserFieldType
  primary_field : UserColumn → UserFieldType
  attribute : AttributeName → AttributeType → Bool → UserFieldType

-- The arms of a `match` on a text: the first arm that lists the text is taken.
abbrev pub Arms {ℓ} : Type ℓ → Type ℓ
Arms A = List (List Str × A)

unfoldable pub match_arms {ℓ} : {A : Type ℓ} → Arms A → Str → Option A
match_arms [] s = none
match_arms ((names, a) ∷ arms) s =
    let rest = match_arms arms s in if any (λ name. s == name) names then some a else rest

-- The last arm: the attribute of the schema, or no match.
abbrev pub schema_user_field : AttributeName → Option (AttributeType × Bool) → UserFieldType
schema_user_field field none = UserFieldType.no_match
schema_user_field field (some (t, is_list)) = UserFieldType.attribute field t is_list

abbrev pub user_arms : Arms UserFieldType
user_arms =
    (codes "memberof" ∷ codes "ismemberof" ∷ [], UserFieldType.member_of)
    ∷ (codes "objectclass" ∷ [], UserFieldType.object_class)
    ∷ (codes "dn" ∷ codes "distinguishedname" ∷ [], UserFieldType.dn)
    ∷ (codes "entrydn" ∷ [], UserFieldType.entry_dn)
    ∷ (
      codes "uid" ∷ codes "user_id" ∷ codes "id" ∷ [],
      UserFieldType.primary_field UserColumn.user_id,
    )
    ∷ (codes "mail" ∷ codes "email" ∷ [], UserFieldType.primary_field UserColumn.email)
    ∷ (
      codes "cn" ∷ codes "displayname" ∷ codes "display_name" ∷ [],
      UserFieldType.primary_field UserColumn.display_name,
    )
    ∷ (
      codes "givenname" ∷ codes "first_name" ∷ codes "firstname" ∷ [],
      UserFieldType.attribute (codes "first_name") AttributeType.string false,
    )
    ∷ (
      codes "sn" ∷ codes "last_name" ∷ codes "lastname" ∷ [],
      UserFieldType.attribute (codes "last_name") AttributeType.string false,
    )
    ∷ (
      codes "avatar" ∷ codes "jpegphoto" ∷ [],
      UserFieldType.attribute (codes "avatar") AttributeType.jpeg_photo false,
    )
    ∷ (
      codes "creationdate"
          ∷ codes "createtimestamp"
          ∷ codes "modifytimestamp"
          ∷ codes "creation_date"
          ∷ [],
      UserFieldType.primary_field UserColumn.creation_date,
    )
    ∷ (codes "entryuuid" ∷ codes "uuid" ∷ [], UserFieldType.primary_field UserColumn.uuid)
    ∷ []

unfoldable pub map_user_field : AttributeName → PublicSchema → UserFieldType
unfolding match_arms
map_user_field field schema = elim (match_arms user_arms field) [
  | some t ↦ t
  | none ↦ schema_user_field field (get_attribute_type (user_attribute_extractor schema) field)
]

pub data GroupFieldType : Type 0 where
  no_match display_name creation_date object_class dn entry_dn member uuid : GroupFieldType
  attribute : AttributeName → AttributeType → Bool → GroupFieldType

abbrev pub schema_group_field : AttributeName → Option (AttributeType × Bool) → GroupFieldType
schema_group_field field none = GroupFieldType.no_match
schema_group_field field (some (t, is_list)) = GroupFieldType.attribute field t is_list

abbrev pub group_arms : Arms GroupFieldType
group_arms =
    (codes "dn" ∷ codes "distinguishedname" ∷ [], GroupFieldType.dn)
    ∷ (codes "entrydn" ∷ [], GroupFieldType.entry_dn)
    ∷ (codes "objectclass" ∷ [], GroupFieldType.object_class)
    ∷ (
      codes "cn" ∷ codes "displayname" ∷ codes "uid" ∷ codes "display_name" ∷ codes "id" ∷ [],
      GroupFieldType.display_name,
    )
    ∷ (
      codes "creationdate"
          ∷ codes "createtimestamp"
          ∷ codes "modifytimestamp"
          ∷ codes "creation_date"
          ∷ [],
      GroupFieldType.creation_date,
    )
    ∷ (codes "member" ∷ codes "uniquemember" ∷ [], GroupFieldType.member)
    ∷ (codes "entryuuid" ∷ codes "uuid" ∷ [], GroupFieldType.uuid)
    ∷ []

unfoldable pub map_group_field : AttributeName → PublicSchema → GroupFieldType
unfolding match_arms
map_group_field field schema = elim (match_arms group_arms field) [
  | some t ↦ t
  | none ↦ schema_group_field field (get_attribute_type (group_attribute_extractor schema) field)
]

-- What every arm has, the arm that is taken has.
pub match_arms-All {ℓ κ} :
    {A : Type ℓ} (P : A → Type κ) (arms : Arms A) (s : Str) (a : A)
    → All (λ arm. P arm.1) arms
    → match_arms arms s ≡ some a
    → P a
unfolding match_arms
match_arms-All P [] s a h e = cc
match_arms-All P ((names, b) ∷ arms) s a (h, hs) e =
    elim (Bool-cases (any (λ name. s == name) names)) [
      | inl hit ↦ let same : b ≡ a = cc (rw hit at e) in subst P same h
      | inr miss ↦ match_arms-All P arms s a hs (rw miss at e)
    ]

module _ ⦃lib : External⦄ where
  -- One value of an attribute, as LDAP sends it.
  unfoldable pub element_bytes : (t : AttributeType) → Element t → Bytes
  unfolding to_decimal into_bytes
  element_bytes AttributeType.string s = into_bytes s
  element_bytes AttributeType.integer i = to_decimal i
  element_bytes AttributeType.jpeg_photo p = p
  element_bytes AttributeType.date_time d = into_bytes (lib.to_rfc3339 d)

  abbrev pub decoded_bytes : (t : AttributeType) (is_list : Bool) → Decoded t is_list → List Bytes
  decoded_bytes t false x = element_bytes t x ∷ []
  decoded_bytes t true xs = map (element_bytes t) xs

  -- `attribute.value.unwrap::<T>()` panics on bytes that do not decode.
  unfoldable pub value_bytes :
      {E : Type 0} → AttributeType → Bool → Serialized → Result E (List Bytes)
  unfolding element_bytes
  value_bytes t is_list v = elim (lib.deserialize t is_list v) [
    | none ↦ panic
    | some x ↦ ok (decoded_bytes t is_list x)
  ]

  -- `get_custom_attribute`: the values of an attribute that the schema declares and the entry has.
  unfoldable pub get_custom_attribute :
      {E : Type 0}
      → Extractor
      → List AttributeValue
      → AttributeName
      → PublicSchema
      → Result E (Option (List Bytes))
  unfolding value_bytes
  get_custom_attribute extractor attributes name schema =
      elim (get_attribute_type (extractor schema) name) [
        | none ↦ ok none
        | some (t, is_list) ↦ elim (find (λ a. a.name == name) attributes) [
          | none ↦ ok none
          | some a ↦ do vals ← value_bytes t is_list a.value; ok (some vals)
        ]
      ]
