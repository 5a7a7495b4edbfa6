-- ===== src/Examples/Filters.antt =====
-- The theorems on permissions, filters and entries, at the directory of the examples.
use lldap.Common.{◌≡◌, refl, false, none, some, List, [], ◌∷◌, retain}
use lldap.Common.Result.{ok, Ends, Succeeds}
use lldap.Text.{codes, ◌==◌}
use lldap.Domain.Types.{GroupName}
use lldap.Domain.Schema.{PublicSchema, public_schema}
use lldap.Access.{
  restrict_users, restrict_groups, lister_list_users, lister_list_groups, lister_get_schema,
  get_user_restricted_lister_handler, Permission, can_read_all, get_permissions_from_groups,
}
use lldap.Access.Permissions.Conferred.{Confers, get_permissions-Confers}
use lldap.Ldap.Filter.{LdapFilter}
use lldap.Ldap.User.{convert_users_to_ldap_op}
use lldap.Ldap.User.Entries.{convert_users-Succeeds}
use lldap.Ldap.UserFilter.{convert_user_filter}
use lldap.Ldap.UserFilter.Wrapped.{RestrictedTranslates, convert_user_filter-Translates}
use lldap.Ldap.Group.{convert_groups_to_ldap_op}
use lldap.Ldap.Group.Entries.{convert_groups-Succeeds}
use lldap.Ldap.GroupFilter.{convert_group_filter}
use lldap.Ldap.GroupFilter.Totality.{Converts, convert_group_filter-Ends}
use lldap.Examples.World.{
  ascii, ann, bob, account, group_of, directory, has, info, memory, selects_user, selects_group,
  visible_schema, base_lower,
}

abbrev staff : List GroupName
staff = codes "staff" ∷ []

abbrev managers : List GroupName
managers = codes "lldap_password_manager" ∷ []

get_permissions-Confers_example :
    Confers
      (codes "staff" ∷ managers)
      (get_permissions_from_groups bob (codes "staff" ∷ managers)).permission
    × ((get_permissions_from_groups bob (codes "staff" ∷ managers)).user ≡ bob)
get_permissions-Confers_example = get_permissions-Confers bob (codes "staff" ∷ managers)

abbrev own_uid : LdapFilter
own_uid = LdapFilter.not (LdapFilter.equality (codes "uid") (codes "Ann"))

abbrev schema : PublicSchema
schema = public_schema visible_schema

regular_reads_itself : can_read_all (has bob Permission.regular) ≡ false
unfolding can_read_all
regular_reads_itself = refl

only_bob :
    lister_list_users
      (get_user_restricted_lister_handler memory (has bob Permission.regular))
      none
      false
      directory
    ≡ ok (account bob ∷ [])
unfolding lister_list_users get_user_restricted_lister_handler restrict_users can_read_all retain
    selects_user ◌==◌
only_bob = refl

only_staff :
    lister_list_groups
      (get_user_restricted_lister_handler memory (has bob Permission.regular))
      none
      directory
    ≡ ok (group_of (codes "staff") (ann ∷ bob ∷ []) ∷ [])
unfolding lister_list_groups get_user_restricted_lister_handler restrict_groups can_read_all retain
    selects_group ◌==◌
only_staff = refl

bob_schema :
    lister_get_schema
      (get_user_restricted_lister_handler memory (has bob Permission.regular))
      directory
    ≡ ok visible_schema
unfolding lister_get_schema get_user_restricted_lister_handler can_read_all retain
bob_schema = refl

convert_user_filter-Translates_example :
    Ends (RestrictedTranslates (some bob)) (convert_user_filter own_uid info schema)
convert_user_filter-Translates_example =
    convert_user_filter-Translates own_uid info schema (some bob) base_lower

convert_group_filter-Ends_example : Converts (convert_group_filter own_uid info schema)
convert_group_filter-Ends_example = convert_group_filter-Ends own_uid info schema base_lower

convert_users-Succeeds_example :
    Succeeds
      (convert_users_to_ldap_op (account ann ∷ []) (codes "*" ∷ codes "mail" ∷ []) info schema)
convert_users-Succeeds_example =
    convert_users-Succeeds (account ann ∷ []) (codes "*" ∷ codes "mail" ∷ []) info schema (tt, tt)

convert_groups-Succeeds_example : Succeeds (
    convert_groups_to_ldap_op
      (group_of (codes "staff") (ann ∷ []) ∷ [])
      (codes "*" ∷ [])
      info
      (some ann)
      schema)
convert_groups-Succeeds_example =
    convert_groups-Succeeds (group_of (codes "staff") (ann ∷ []) ∷ []) (codes "*" ∷ []) info
      (some ann) schema (tt, tt)
