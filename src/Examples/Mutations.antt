-- ===== src/Examples/Mutations.antt =====
-- The theorems on the GraphQL interface, at the directory and the roster of the examples.
use mathlib.Core.List.{Perm}
use lldap.Common.{◌≡◌, refl, ◌⊎◌, true, false, none, some, List, [], ◌∷◌, ◌++◌, map}
use lldap.Common.Int.{pos}
use lldap.Common.Result.{Ends}
use lldap.Text.{codes, ◌==◌}
use lldap.Domain.Schema.{public_schema, hardcoded_user_attributes, hardcoded_group_attributes}
use lldap.Domain.Schema.Sorting.{IsSorted, public_schema-IsSorted}
use lldap.Access.{Permission, is_admin}
use lldap.Storage.GroupRows.{same_group}
use lldap.Graphql.Attributes.{AttributeValueInput}
use lldap.Graphql.Dispatch.{Request, mutate, after_all}
use lldap.Graphql.Guards.{OwnUpdate, mutate-OwnUpdate}
use lldap.Graphql.OwnRights.{after_all-keeps_own_admin}
use lldap.Graphql.Filter.{
  RequestFilter, request_filter, no_filter, no_filters, filters, nil, cons, try_into_domain_filter,
}
use lldap.Graphql.Filter.Totality.{Converts, try_into_domain_filter-Converts}
use lldap.Domain.Deserialize.{deserialize_attribute_value, parse_element}
use lldap.Domain.Types.{AttributeType}
use lldap.Common.Result.{ok}
use lldap.Access.{can_write}
use lldap.Text.{to_ascii_lowercase}
use lldap.Domain.Types.{new_case_insensitive}
use lldap.Graphql.Mutation.{success}
use lldap.Graphql.Removals.{removing, update_user-removes_any}
use lldap.Graphql.Values.{TextLaws, SameText, serialize_attribute, serialize-deserialize_attribute}
use lldap.Common.Int.{ℤ, pos, negsuc, parse_i64, parse_magnitude, parse_digits}
use lldap.Graphql.{FieldError}
use lldap.Text.{Str}
use lldap.Examples.World.{ascii, ann, bob, has, memory, directory, full_schema}
use lldap.Examples.Roster.{roster, ann_alone, membership}

-- Bob renames himself, with a value of an attribute.
abbrev nickname : AttributeValueInput
nickname = record { name = codes "nick"; value = codes "b" ∷ [] }

abbrev rename : Request
rename = Request.update_user (record {
  id = bob;
  email = none;
  display_name = some (codes "Bobby");
  first_name = none;
  last_name = none;
  avatar = none;
  remove_attributes = none;
  insert_attributes = some (nickname ∷ []);
})

mutate-OwnUpdate_example :
    ((mutate memory (has bob Permission.regular) rename directory).1 ≡ directory)
    ⊎ OwnUpdate memory
        (has bob Permission.regular)
        directory
        (mutate memory (has bob Permission.regular) rename directory).1
unfolding is_admin
mutate-OwnUpdate_example =
    mutate-OwnUpdate memory (has bob Permission.regular) rename directory refl

-- Ann deletes Bob, tries to leave the group of the administrators, and then tries to delete it.
abbrev requests : List Request
requests =
    Request.delete_user bob
    ∷ Request.remove_user_from_group ann (pos 1)
    ∷ Request.delete_group (pos 1)
    ∷ []

after_all-keeps_own_admin_example :
    (after_all roster (map (λ r. (has ann Permission.admin, r)) requests) ann_alone).members ann
      (pos 1)
    ≡ true
unfolding membership ◌==◌ same_group
after_all-keeps_own_admin_example =
    after_all-keeps_own_admin roster membership (has ann Permission.admin) requests ann_alone refl

-- A number that came in with zeros in front is shown without them.
number_stored :
    deserialize_attribute_value (codes "007" ∷ []) AttributeType.integer false ≡ ok (0 ∷ 7 ∷ [])
unfolding deserialize_attribute_value parse_element parse_i64 parse_magnitude parse_digits
number_stored = refl

number_law :
    (x : ℤ)
    → ascii.deserialize AttributeType.integer false (ascii.serialize AttributeType.integer false x)
      ≡ some x
number_law (pos n) = refl
number_law (negsuc n) = refl

text_laws : TextLaws ascii
text_laws = record { decode-encode_base64 = λ b. refl; parse-to_rfc3339 = λ d. refl }

serialize-deserialize_attribute_example :
    (shown : List Str) × (serialize_attribute {E = FieldError} AttributeType.integer false
        (0 ∷ 7 ∷ [])
      ≡ ok shown)
    × (deserialize_attribute_value shown AttributeType.integer false ≡ ok (0 ∷ 7 ∷ []))
    × SameText AttributeType.integer (codes "007" ∷ []) shown
serialize-deserialize_attribute_example =
    serialize-deserialize_attribute AttributeType.integer false (codes "007" ∷ []) (0 ∷ 7 ∷ [])
      number_law text_laws number_stored

-- The members of one of two groups.
abbrev member_of_either : RequestFilter
member_of_either =
    request_filter
      (filters (
        cons (request_filter no_filters no_filters no_filter none (some (codes "staff")) none)
          (cons (request_filter no_filters no_filters no_filter none none (some (pos 1))) nil)))
      no_filters no_filter none none none

try_into_domain_filter-Converts_example :
    Ends
      (Converts member_of_either)
      (try_into_domain_filter (public_schema full_schema) member_of_either)
try_into_domain_filter-Converts_example =
    try_into_domain_filter-Converts (public_schema full_schema) member_of_either

public_schema-IsSorted_example :
    IsSorted (public_schema full_schema).schema.user_attributes.attributes
    × Perm
        (public_schema full_schema).schema.user_attributes.attributes
        (full_schema.user_attributes.attributes ++ hardcoded_user_attributes)
    × IsSorted (public_schema full_schema).schema.group_attributes.attributes
    × Perm
        (public_schema full_schema).schema.group_attributes.attributes
        (full_schema.group_attributes.attributes ++ hardcoded_group_attributes)
public_schema-IsSorted_example = public_schema-IsSorted full_schema

update_user-removes_any_example :
    mutate memory
      (has bob Permission.regular)
      (Request.update_user (removing bob (codes "nick" ∷ codes "avatar" ∷ [])))
      directory
    ≡ (ok success, directory)
unfolding can_write ◌==◌ new_case_insensitive to_ascii_lowercase
update_user-removes_any_example =
    update_user-removes_any memory (has bob Permission.regular) bob
      (codes "nick" ∷ codes "avatar" ∷ []) full_schema directory directory refl refl refl
