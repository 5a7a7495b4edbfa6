-- ===== src/Server/Search/Totality.antt =====
-- A search is always answered: nothing in it panics.
use lldap.Common.{◌≡◌, Bool, Option, All}
use lldap.Common.Result.{Result, ok, Ends}
use lldap.Domain.Types.{External}
use lldap.Domain.Handler.{UserRequestFilter, GroupRequestFilter, Schema}
use lldap.Domain.Backend.{Backend}
use lldap.Domain.Schema.{public_schema}
use lldap.Access.{
  ValidationResults, get_user_restricted_lister_handler, lister_get_schema, lister_list_users,
  lister_list_groups,
}
use lldap.Ldap.User.Entries.{UserDecodes}
use lldap.Ldap.Group.Entries.{GroupDecodes}

module _ ⦃lib : External⦄ {S : Type 0} where
  -- What the backend has to do for a search by a user: its calls return or fail, and the
  -- attributes that it has stored decode at the types of the schema.
  pub record ServesSearch (backend : Backend S) (v : ValidationResults) (s : S) : Type 0 where
    pub schema_answers :
        Ends (λ _. Unit {0}) (lister_get_schema (get_user_restricted_lister_handler backend v) s)
    pub users_decode :
        (schema : Schema) (f : Option UserRequestFilter) (get_groups : Bool)
        → lister_get_schema (get_user_restricted_lister_handler backend v) s ≡ ok schema
        → Ends
            (All (λ u. UserDecodes (public_schema schema) u.user))
            (lister_list_users (get_user_restricted_lister_handler backend v) f get_groups s)
    pub groups_decode :
        (schema : Schema) (f : Option GroupRequestFilter)
        → lister_get_schema (get_user_restricted_lister_handler backend v) s ≡ ok schema
        → Ends
            (All (GroupDecodes (public_schema schema)))
            (lister_list_groups (get_user_restricted_lister_handler backend v) f s)
