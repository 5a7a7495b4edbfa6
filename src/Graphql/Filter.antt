-- ===== src/Graphql/Filter.antt =====
-- server/src/infra/graphql/query.rs: the filters of the users. A list of filters inside a filter is a
-- list type of its own, declared with the filter.
pub mod Totality
use lldap.Common.{Bool, true, false, Option, none, some, List, [], ◌∷◌, ◌++◌}
use lldap.Common.Result.{Result, ok, err, map_err, ◌>>=◌}
use lldap.Text.{Str, codes}
use lldap.Domain.Types.{
  External, GroupId, AttributeName, AttributeType, new_user_id, new_attribute_name,
}
use lldap.Domain.Handler.{UserColumn, UserRequestFilter, UserRequestFilters}
use lldap.Domain.Schema.{PublicSchema}
use lldap.Domain.Deserialize.{deserialize_attribute_value}
use lldap.Ldap.Fields.{UserFieldType, map_user_field}
use lldap.Graphql.{FieldError, message, deserialize_error, FieldResult}

pub record EqualityConstraint : Type 0 where
  pub field : Str
  pub value : Str

mutual
  -- The six optional fields of the input object, under their names there.
  pub data RequestFilter : Type 0 where
    request_filter :
        (any all : OptionalFilters)
        → (negated : OptionalFilter) → (equality : Option EqualityConstraint)
        → (member_of : Option Str) → (member_of_id : Option GroupId) → RequestFilter

  pub data OptionalFilter : Type 0 where
    no_filter : OptionalFilter
    filter : RequestFilter → OptionalFilter

  pub data OptionalFilters : Type 0 where
    no_filters : OptionalFilters
    filters : RequestFilterList → OptionalFilters

  pub data RequestFilterList : Type 0 where
    nil : RequestFilterList
    cons : RequestFilter → RequestFilterList → RequestFilterList

module _ ⦃lib : External⦄ where
  -- The arm of an equality.
  unfoldable pub equality_filter :
      EqualityConstraint → UserFieldType → FieldResult UserRequestFilter
  unfolding deserialize_attribute_value
  equality_filter eq UserFieldType.no_match =
      err (message (codes "Unknown request filter: " ++ eq.field))
  equality_filter eq (UserFieldType.primary_field UserColumn.user_id) =
      ok (UserRequestFilter.user_id (new_user_id eq.value))
  equality_filter eq (UserFieldType.primary_field column) =
      ok (UserRequestFilter.equality column eq.value)
  equality_filter eq (UserFieldType.attribute name typ false) = do
    value ← map_err (deserialize_error name) (deserialize_attribute_value (eq.value ∷ []) typ false)
    ok (UserRequestFilter.attribute_equality name value)
  equality_filter eq (UserFieldType.attribute name typ true) =
      err (message (codes "Equality not supported for list fields"))
  equality_filter eq UserFieldType.member_of = ok (UserRequestFilter.member_of eq.value)
  equality_filter eq _ = err (message (codes "Ldap fields not supported in request filter"))

  unfoldable mutual
    unfolding equality_filter

    pub try_into_domain_filter : PublicSchema → RequestFilter → FieldResult UserRequestFilter
    try_into_domain_filter schema
          (request_filter no_filters no_filters no_filter (some eq) none none) =
        equality_filter eq (map_user_field (new_attribute_name eq.field) schema)
    try_into_domain_filter schema
          (request_filter (filters any) no_filters no_filter none none none) =
        do fs ← try_into_domain_filters schema any; ok (UserRequestFilter.or fs)
    try_into_domain_filter schema
          (request_filter no_filters (filters all) no_filter none none none) =
        do fs ← try_into_domain_filters schema all; ok (UserRequestFilter.and fs)
    try_into_domain_filter schema (request_filter no_filters no_filters (filter f) none none none) =
        do g ← try_into_domain_filter schema f; ok (UserRequestFilter.not g)
    try_into_domain_filter schema
          (request_filter no_filters no_filters no_filter none (some group) none) =
        ok (UserRequestFilter.member_of group)
    try_into_domain_filter schema
          (request_filter no_filters no_filters no_filter none none (some id)) =
        ok (UserRequestFilter.member_of_id id)
    try_into_domain_filter schema (request_filter no_filters no_filters no_filter none none none) =
        err (message (codes "No field specified in request filter"))
    try_into_domain_filter schema _ =
        err (message (codes "Multiple fields specified in request filter"))

    pub try_into_domain_filters : PublicSchema → RequestFilterList → FieldResult UserRequestFilters
    try_into_domain_filters schema nil = ok UserRequestFilters.nil
    try_into_domain_filters schema (cons f fs) = do
      g ← try_into_domain_filter schema f
      gs ← try_into_domain_filters schema fs
      ok (UserRequestFilters.cons g gs)
