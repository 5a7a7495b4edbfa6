-- ===== src/Ldap/UserFilter/Wrapped.antt =====
-- Every LDAP filter, once converted, has a translation into SQL: the case that
-- `get_user_filter_expr` refuses by a panic ("User id should be wrapped") is never built.
use lldap.Common.{◌≡◌, Bool, true, false, none, some, Option, all, arith}
use lldap.Common.Result.{ok, err, panic, Succeeds, Succeeds-bind, Ends, Ends-bind, Ends-weaken}
use lldap.Text.{Str, to_ascii_lowercase}
use lldap.Text.Laws.{to_ascii_lowercase_idem}
use lldap.Domain.Types.{External, AttributeName, AttributeType, UserId, new_attribute_name}
use lldap.Domain.Handler.{UserColumn, UserRequestFilter, UserRequestFilters, user_filter_of_bool}
use lldap.Domain.Deserialize.{deserialize_attribute_value, parse_element}
use lldap.Domain.Schema.{PublicSchema}
use lldap.Domain.Sql.{get_user_filter_expr, get_user_filter_exprs}
use lldap.Access.{restrict_users}
use lldap.Ldap.Error.{LdapResult}
use lldap.Ldap.Dn.{rdn_is_lower}
use lldap.Ldap.Dn.Totality.{IsLower, get_user_id-Ends, get_group_id-Ends}
use lldap.Ldap.Fields.{LdapInfo, UserFieldType, map_user_field}
use lldap.Ldap.Filter.{LdapFilter, LdapFilters, LdapSubstringFilter}
use lldap.Ldap.UserFilter.{
  user_id_or_false, substring_user_filter, get_user_attribute_equality_filter, equality_user_filter,
  convert_user_filter, convert_user_filters,
}

module _ ⦃lib : External⦄ where
  -- The filter has a translation into SQL.
  abbrev pub Translates : UserRequestFilter → Type 0
  Translates f = Succeeds (get_user_filter_expr f)

  abbrev pub TranslatesAll : UserRequestFilters → Type 0
  TranslatesAll fs = Succeeds (get_user_filter_exprs fs)

  of_bool-Translates : (b : Bool) → Translates (user_filter_of_bool b)
  unfolding user_filter_of_bool get_user_filter_expr
  of_bool-Translates true = tt
  of_bool-Translates false = tt

  pub and-Translates :
      (fs : UserRequestFilters) → TranslatesAll fs → Translates (UserRequestFilter.and fs)
  unfolding get_user_filter_expr
  and-Translates fs h = Succeeds-bind (get_user_filter_exprs fs) _ h (λ cs. tt)

  pub or-Translates :
      (fs : UserRequestFilters) → TranslatesAll fs → Translates (UserRequestFilter.or fs)
  unfolding get_user_filter_expr
  or-Translates fs h = Succeeds-bind (get_user_filter_exprs fs) _ h (λ cs. tt)

  pub not-Translates : (f : UserRequestFilter) → Translates f → Translates (UserRequestFilter.not f)
  unfolding get_user_filter_expr
  not-Translates f h = Succeeds-bind (get_user_filter_expr f) _ h (λ c. tt)

  pub nil-Translates : TranslatesAll UserRequestFilters.nil
  unfolding get_user_filter_exprs
  nil-Translates = tt

  user_id-Translates : (u : UserId) → Translates (UserRequestFilter.user_id u)
  unfolding get_user_filter_expr
  user_id-Translates u = tt

  pub cons-Translates :
      (f : UserRequestFilter) (fs : UserRequestFilters)
      → Translates f
      → TranslatesAll fs
      → TranslatesAll (UserRequestFilters.cons f fs)
  unfolding get_user_filter_expr
  cons-Translates f fs h hs =
      Succeeds-bind (get_user_filter_expr f) _ h
        (λ c. Succeeds-bind (get_user_filter_exprs fs) _ hs (λ cs. tt))

  user_id_or_false-Ends :
      (r : LdapResult Str) → Ends (λ _. Unit {0}) r → Ends Translates (user_id_or_false r)
  unfolding get_user_filter_expr
  user_id_or_false-Ends (ok id) h = tt
  user_id_or_false-Ends (err e) h = of_bool-Translates false
  user_id_or_false-Ends panic h = h

  pub parse_element-Ends : (t : AttributeType) (s : Str) → Ends (λ _. Unit {0}) (parse_element t s)
  unfolding parse_element
  parse_element-Ends AttributeType.string s = tt
  parse_element-Ends _ s = ground arith

  attribute-Ends :
      (name : AttributeName) (t : AttributeType) (is_list : Bool) (v : Str)
      → Ends Translates (get_user_attribute_equality_filter name t is_list v)
  unfolding get_user_attribute_equality_filter deserialize_attribute_value get_user_filter_expr
  attribute-Ends name t false v = ground (arith, parse_element-Ends t v)
  attribute-Ends name t true v = ground (arith, parse_element-Ends t v)

  equality-Ends :
      (t : UserFieldType) (info : LdapInfo) (value : Str) (schema : PublicSchema)
      → all rdn_is_lower info.base_dn ≡ true
      → IsLower value
      → Ends Translates (equality_user_filter t info value schema)
  unfolding equality_user_filter get_user_filter_expr
  equality-Ends (UserFieldType.primary_field UserColumn.user_id) info value schema hb hv = tt
  equality-Ends (UserFieldType.primary_field UserColumn.email) info value schema hb hv = tt
  equality-Ends (UserFieldType.primary_field column) info value schema hb hv = tt
  equality-Ends (UserFieldType.attribute name t l) info value schema hb hv =
      attribute-Ends name t l value
  equality-Ends UserFieldType.no_match info value schema hb hv = of_bool-Translates false
  equality-Ends UserFieldType.object_class info value schema hb hv = of_bool-Translates _
  equality-Ends UserFieldType.member_of info value schema hb hv =
      Ends-bind (λ _. Unit {0}) Translates _ _
        (get_group_id-Ends value info.base_dn info.base_dn_str hv hb) (λ g _. tt)
  equality-Ends _ info value schema hb hv =
      user_id_or_false-Ends _ (get_user_id-Ends value info.base_dn info.base_dn_str hv hb)

  substring-Ends :
      (t : UserFieldType) (field : AttributeName) (f : LdapSubstringFilter)
      → Ends Translates (substring_user_filter t field f)
  unfolding substring_user_filter get_user_filter_expr
  substring-Ends UserFieldType.no_match field f = of_bool-Translates false
  substring-Ends (UserFieldType.primary_field UserColumn.user_id) field f = tt
  substring-Ends (UserFieldType.primary_field column) field f = tt
  substring-Ends _ field f = tt

  mutual
    unfolding convert_user_filter

    convert-Ends :
        (f : LdapFilter) (info : LdapInfo) (schema : PublicSchema)
        → all rdn_is_lower info.base_dn ≡ true
        → Ends Translates (convert_user_filter f info schema)
    convert-Ends (LdapFilter.and fs) info schema hb =
        Ends-bind TranslatesAll Translates _ _ (converts-Ends fs info schema hb) and-Translates
    convert-Ends (LdapFilter.or fs) info schema hb =
        Ends-bind TranslatesAll Translates _ _ (converts-Ends fs info schema hb) or-Translates
    convert-Ends (LdapFilter.not f) info schema hb =
        Ends-bind Translates Translates _ _ (convert-Ends f info schema hb) not-Translates
    convert-Ends (LdapFilter.equality field value) info schema hb =
        equality-Ends (map_user_field (new_attribute_name field) schema) info
          (to_ascii_lowercase value) schema hb (to_ascii_lowercase_idem value)
    convert-Ends (LdapFilter.present field) info schema hb = of_bool-Translates _
    convert-Ends (LdapFilter.substring field f) info schema hb =
        substring-Ends (map_user_field (new_attribute_name field) schema) (new_attribute_name field)
          f
    convert-Ends (LdapFilter.unsupported k) info schema hb = tt

    converts-Ends :
        (fs : LdapFilters) (info : LdapInfo) (schema : PublicSchema)
        → all rdn_is_lower info.base_dn ≡ true
        → Ends TranslatesAll (convert_user_filters fs info schema)
    converts-Ends LdapFilters.nil info schema hb = nil-Translates
    converts-Ends (LdapFilters.cons f fs) info schema hb =
        Ends-bind Translates TranslatesAll _ _ (convert-Ends f info schema hb) (λ g hg.
          Ends-bind TranslatesAll TranslatesAll _ _ (converts-Ends fs info schema hb)
            (λ gs hgs. cons-Translates g gs hg hgs))

  -- Whether the filter is restricted to one user.
  abbrev pub RestrictedTranslates : Option UserId → UserRequestFilter → Type 0
  RestrictedTranslates u g =
      (h : UserRequestFilter) → restrict_users (some g) u ≡ some h → Translates h

  restrict-Translates :
      (u : Option UserId) (g : UserRequestFilter) → Translates g → RestrictedTranslates u g
  unfolding restrict_users
  restrict-Translates none g hg h e = let same : g ≡ h = cc in rw (← same) hg
  restrict-Translates (some u) g hg h e =
      let own = UserRequestFilters.cons (UserRequestFilter.user_id u) UserRequestFilters.nil in
      let same : UserRequestFilter.and (UserRequestFilters.cons g own) ≡ h = cc in
      rw (← same) (
        and-Translates (UserRequestFilters.cons g own) (
          cons-Translates g own hg (
            cons-Translates (UserRequestFilter.user_id u) UserRequestFilters.nil
              (user_id-Translates u) nil-Translates)))

  -- Under a base in lower case, converting a filter never panics; and what it converts to, restricted
  -- to one user or not, has a translation into SQL.
  pub convert_user_filter-Translates :
      (f : LdapFilter) (info : LdapInfo) (schema : PublicSchema) (u : Option UserId)
      → all rdn_is_lower info.base_dn ≡ true
      → Ends (RestrictedTranslates u) (convert_user_filter f info schema)
  convert_user_filter-Translates f info schema u hb =
      Ends-weaken Translates (RestrictedTranslates u) _ (convert-Ends f info schema hb)
        (restrict-Translates u)
