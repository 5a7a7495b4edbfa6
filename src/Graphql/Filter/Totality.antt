-- ===== src/Graphql/Filter/Totality.antt =====
-- What the conversion of a GraphQL filter accepts, and that SQL can run what it returns.
use lldap.Common.{ℕ, ◌≡◌, refl, ◌+◌, true, false, Option, none, some, arith}
use lldap.Common.Result.{ok, Ends, Ends-bind, Ends-weaken}
use lldap.Domain.Types.{External}
use lldap.Domain.Handler.{UserColumn, UserRequestFilter, UserRequestFilters}
use lldap.Domain.Schema.{PublicSchema}
use lldap.Domain.Deserialize.{deserialize_attribute_value}
use lldap.Domain.Sql.{get_user_filter_expr}
use lldap.Ldap.Fields.{UserFieldType}
use lldap.Ldap.UserFilter.Wrapped.{
  Translates, TranslatesAll, and-Translates, or-Translates, not-Translates, nil-Translates,
  cons-Translates, parse_element-Ends,
}
use lldap.Graphql.Filter.{
  EqualityConstraint, RequestFilter, request_filter, OptionalFilter, no_filter, filter,
  OptionalFilters, no_filters, filters, RequestFilterList, nil, cons, equality_filter,
  try_into_domain_filter, try_into_domain_filters,
}

abbrev one_if_some : {A : Type 0} → Option A → ℕ
one_if_some none = 0
one_if_some (some a) = 1

abbrev one_if_filter : OptionalFilter → ℕ
one_if_filter no_filter = 0
one_if_filter (filter f) = 1

abbrev one_if_filters : OptionalFilters → ℕ
one_if_filters no_filters = 0
one_if_filters (filters fs) = 1

-- How many fields of a filter are set.
abbrev pub set_fields : RequestFilter → ℕ
set_fields (request_filter any all negated equality member_of member_of_id) =
    one_if_filters any
    + one_if_filters all
    + one_if_filter negated
    + one_if_some equality
    + one_if_some member_of
    + one_if_some member_of_id

module _ ⦃lib : External⦄ where
  abbrev pub Converts : RequestFilter → UserRequestFilter → Type 0
  Converts f g = Translates g × (set_fields f ≡ 1)

  equality-Ends :
      (eq : EqualityConstraint) (t : UserFieldType) → Ends Translates (equality_filter eq t)
  unfolding equality_filter get_user_filter_expr deserialize_attribute_value
  equality-Ends eq (UserFieldType.primary_field UserColumn.user_id) = tt
  equality-Ends eq (UserFieldType.primary_field UserColumn.email) = tt
  equality-Ends eq (UserFieldType.primary_field _) = tt
  equality-Ends eq (UserFieldType.attribute name t false) =
      ground (arith, parse_element-Ends t eq.value)
  equality-Ends eq (UserFieldType.attribute name t true) = tt
  equality-Ends eq UserFieldType.no_match = tt
  equality-Ends eq UserFieldType.member_of = tt
  equality-Ends eq _ = tt

  mutual
    unfolding try_into_domain_filter get_user_filter_expr

    filter-Ends :
        (schema : PublicSchema) (f : RequestFilter)
        → Ends (Converts f) (try_into_domain_filter schema f)
    filter-Ends schema (request_filter no_filters no_filters no_filter (some eq) none none) =
        Ends-weaken Translates
          (Converts (request_filter no_filters no_filters no_filter (some eq) none none)) _
          (equality-Ends eq _) λ g h. (h, refl)
    filter-Ends schema (request_filter (filters any) no_filters no_filter none none none) =
        Ends-bind TranslatesAll
          (Converts (request_filter (filters any) no_filters no_filter none none none)) _
          (λ fs. ok (UserRequestFilter.or fs)) (filters-Ends schema any)
          λ fs h. (or-Translates fs h, refl)
    filter-Ends schema (request_filter no_filters (filters all) no_filter none none none) =
        Ends-bind TranslatesAll
          (Converts (request_filter no_filters (filters all) no_filter none none none)) _
          (λ fs. ok (UserRequestFilter.and fs)) (filters-Ends schema all)
          λ fs h. (and-Translates fs h, refl)
    filter-Ends schema (request_filter no_filters no_filters (filter f) none none none) =
        Ends-bind (Converts f)
          (Converts (request_filter no_filters no_filters (filter f) none none none)) _
          (λ g. ok (UserRequestFilter.not g)) (filter-Ends schema f)
          λ g (h, _). (not-Translates g h, refl)
    filter-Ends schema (request_filter no_filters no_filters no_filter none (some group) none) =
        (tt, refl)
    filter-Ends schema (request_filter no_filters no_filters no_filter none none (some id)) =
        (tt, refl)
    filter-Ends schema (request_filter no_filters no_filters no_filter none none none) = tt
    filter-Ends schema _ = tt

    filters-Ends :
        (schema : PublicSchema) (fs : RequestFilterList)
        → Ends TranslatesAll (try_into_domain_filters schema fs)
    filters-Ends schema nil = nil-Translates
    filters-Ends schema (cons f fs) =
        Ends-bind (Converts f) TranslatesAll (try_into_domain_filter schema f) _
          (filter-Ends schema f)
          λ g (h, _).
            Ends-bind TranslatesAll TranslatesAll (try_into_domain_filters schema fs)
              (λ gs. ok (UserRequestFilters.cons g gs)) (filters-Ends schema fs)
              λ gs hs. cons-Translates g gs h hs

  -- The conversion of a filter never panics; a filter that it accepts has exactly one field set, and
  -- what it returns has a translation into SQL.
  pub try_into_domain_filter-Converts :
      (schema : PublicSchema) (f : RequestFilter)
      → Ends (Converts f) (try_into_domain_filter schema f)
  try_into_domain_filter-Converts schema f = filter-Ends schema f
