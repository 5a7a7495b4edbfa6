-- ===== src/Graphql/Query.antt =====
-- server/src/infra/graphql/query.rs: the queries, and the members of a group.
pub mod Privileges
use Prim.Native.Nat.{Ordering}
use lldap.Common.{[], ◌∷◌, Bool, false, Option, none, some, String, List, ◌++◌}
use lldap.Common.Result.{Result, ok, err, panic, ok_or, map_err, map, traverse, ◌>>=◌}
use lldap.Text.{Str, codes}
use lldap.Domain.Error.{DomainResult}
use lldap.Domain.Types.{External, GroupId, new_user_id}
use lldap.Domain.Types.Compare.{compare_chars}
use lldap.Domain.Handler.{UserRequestFilter}
use lldap.Domain.Schema.{PublicSchema, public_schema}
use lldap.Domain.Backend.{Backend}
use lldap.Access.{
  ValidationResults, get_readonly_handler, get_readable_handler, get_user_restricted_lister_handler,
  lister_get_schema,
}
use lldap.Graphql.{
  FieldError, message, backend_error, FieldResult, User, Group, from_user, from_user_and_groups,
  from_group, from_group_details,
}
use lldap.Graphql.Filter.{RequestFilter, try_into_domain_filter}

-- `?` on a result of the backend.
abbrev pub backend_result : {A : Type 0} → DomainResult A → FieldResult A
backend_result r = map_err backend_error r

abbrev pub guard : {A : Type 0} → String → Option A → FieldResult A
guard text handler = ok_or (message (codes text)) handler

module _ ⦃lib : External⦄ where
  -- `filters.map(..).transpose()?`
  abbrev domain_filter :
      PublicSchema → Option RequestFilter → FieldResult (Option UserRequestFilter)
  domain_filter schema none = ok none
  domain_filter schema (some f) = do g ← try_into_domain_filter schema f; ok (some g)

module _ {S : Type 0} (backend : Backend S) (v : ValidationResults) where
  unfoldable pub get_schema : S → FieldResult PublicSchema
  unfolding get_user_restricted_lister_handler lister_get_schema
  get_schema s =
      backend_result
        (map public_schema (lister_get_schema (get_user_restricted_lister_handler backend v) s))

  -- `decoded` is what `urlencoding::decode` makes of the argument.
  unfoldable pub user : Option Str → S → FieldResult User
  unfolding get_readable_handler get_schema from_user
  user decoded s = do
    user_id ← guard "Invalid user parameter" decoded
    handler ←
        guard "Unauthorized access to user data"
          (get_readable_handler backend v (new_user_id user_id))
    schema ← get_schema s
    details ← backend_result (handler.get_user_details (new_user_id user_id) s)
    from_user schema details

  unfoldable pub groups : S → FieldResult (List Group)
  unfolding get_readonly_handler get_schema traverse from_group
  groups s = do
    handler ← guard "Unauthorized access to group list" (get_readonly_handler backend v)
    schema ← get_schema s
    domain_groups ← backend_result (handler.list_groups none s)
    traverse (from_group schema) domain_groups

  unfoldable pub group : GroupId → S → FieldResult Group
  unfolding get_readonly_handler get_schema from_group_details
  group group_id s = do
    handler ← guard "Unauthorized access to group data" (get_readonly_handler backend v)
    schema ← get_schema s
    details ← backend_result (handler.get_group_details group_id s)
    from_group_details schema details

  -- `Group::users`
  unfoldable pub group_users : Group → S → FieldResult (List User)
  unfolding get_readonly_handler traverse from_user_and_groups
  group_users g s = do
    handler ← guard "Unauthorized access to group data" (get_readonly_handler backend v)
    domain_users ←
        backend_result
          (handler.list_users (some (UserRequestFilter.member_of_id g.group_id)) false s)
    traverse (from_user_and_groups g.schema) domain_users

module _ ⦃lib : External⦄ {S : Type 0} (backend : Backend S) (v : ValidationResults) where
  unfoldable pub users : Option RequestFilter → S → FieldResult (List User)
  unfolding get_readonly_handler get_schema try_into_domain_filter traverse from_user_and_groups
  users filters s = do
    handler ← guard "Unauthorized access to user list" (get_readonly_handler backend v)
    schema ← get_schema backend v s
    domain ← domain_filter schema filters
    found ← backend_result (handler.list_users domain false s)
    traverse (from_user_and_groups schema) found

-- `groups.sort_by(|g1, g2| g1.display_name.cmp(&g2.display_name))`: names are compared by code points.
unfoldable pub insert_by_name : Group → List Group → List Group
unfolding compare_chars
insert_by_name g [] = g ∷ []
insert_by_name g (h ∷ hs) =
    let rest = insert_by_name g hs in
    elim (compare_chars g.display_name h.display_name) [ Ordering.gt ↦ h ∷ rest | _ ↦ g ∷ h ∷ hs ]

abbrev sorted_by_name : List Group → List Group
sorted_by_name [] = []
sorted_by_name (g ∷ gs) = insert_by_name g (sorted_by_name gs)

-- `expect("We shouldn't be able to get there without readable permission")`
abbrev expect_readable : {A : Type 0} → Option A → FieldResult A
expect_readable none = panic
expect_readable (some handler) = ok handler

module _ {S : Type 0} (backend : Backend S) (v : ValidationResults) where
  abbrev read_groups : User → Option (List Group) → S → FieldResult (List Group)
  read_groups u (some groups) s = ok groups
  read_groups u none s = do
    handler ← expect_readable (get_readable_handler backend v u.user.user_id)
    domain_groups ← backend_result (handler.get_user_groups u.user.user_id s)
    converted ← traverse (from_group_details u.schema) domain_groups
    ok (sorted_by_name converted)

  -- `User::groups`
  unfoldable pub user_groups : User → S → FieldResult (List Group)
  unfolding get_readable_handler traverse from_group_details insert_by_name
  user_groups u s = read_groups u u.groups s
