-- ===== src/Domain/Schema.antt =====
-- server/src/domain/schema.rs: the schema with the hard-coded attributes added, sorted by name.
pub mod Sorting
use Prim.Native.Nat.{Ordering}
use lldap.Common.{Bool, true, false, List, [], ◌∷◌, ◌++◌}
use lldap.Text.{codes}
use lldap.Domain.Types.{AttributeType, AttributeName}
use lldap.Domain.Types.Compare.{compare_chars}
use lldap.Domain.Handler.{AttributeSchema, AttributeList, Schema}

pub record PublicSchema : Type 0 where
  pub schema : Schema

-- `slice::sort_by` of the standard library, a stable sort, here by insertion: an element goes in
-- front of the first one that is not smaller.
abbrev pub name_order : AttributeSchema → AttributeSchema → Ordering
name_order a b = compare_chars a.name b.name

unfoldable pub insert : AttributeSchema → List AttributeSchema → List AttributeSchema
insert a [] = a ∷ []
insert a (b ∷ bs) =
    let rest = insert a bs in elim (name_order a b) [ Ordering.gt ↦ b ∷ rest | _ ↦ a ∷ b ∷ bs ]

unfoldable pub sort_by_name : List AttributeSchema → List AttributeSchema
unfolding insert compare_chars
sort_by_name [] = []
sort_by_name (a ∷ as') = insert a (sort_by_name as')

abbrev pub hardcoded : AttributeName → AttributeType → Bool → AttributeSchema
hardcoded name typ editable = record {
  name = name;
  attribute_type = typ;
  is_list = false;
  is_visible = true;
  is_editable = editable;
  is_hardcoded = true;
}

abbrev pub hardcoded_user_attributes : List AttributeSchema
hardcoded_user_attributes =
    hardcoded (codes "user_id") AttributeType.string false
    ∷ hardcoded (codes "creation_date") AttributeType.date_time false
    ∷ hardcoded (codes "mail") AttributeType.string true
    ∷ hardcoded (codes "uuid") AttributeType.string false
    ∷ hardcoded (codes "display_name") AttributeType.string true
    ∷ []

abbrev pub hardcoded_group_attributes : List AttributeSchema
hardcoded_group_attributes =
    hardcoded (codes "group_id") AttributeType.integer false
    ∷ hardcoded (codes "creation_date") AttributeType.date_time false
    ∷ hardcoded (codes "uuid") AttributeType.string false
    ∷ hardcoded (codes "display_name") AttributeType.string true
    ∷ []

-- `From<Schema> for PublicSchema`
unfoldable pub public_schema : Schema → PublicSchema
unfolding sort_by_name
public_schema s = record {
  schema = record s {
    user_attributes = record {
      attributes = sort_by_name (s.user_attributes.attributes ++ hardcoded_user_attributes);
    };
    group_attributes = record {
      attributes = sort_by_name (s.group_attributes.attributes ++ hardcoded_group_attributes);
    };
  };
}

-- The two `SchemaAttributeExtractor`s.
abbrev pub Extractor : Type 0
Extractor = PublicSchema → AttributeList

abbrev pub user_attribute_extractor : Extractor
user_attribute_extractor p = p.schema.user_attributes

abbrev pub group_attribute_extractor : Extractor
group_attribute_extractor p = p.schema.group_attributes
