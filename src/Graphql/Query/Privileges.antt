-- ===== src/Graphql/Query/Privileges.antt =====
-- What the GraphQL queries show to users without privileges (server/src/infra/graphql/query.rs).
use lldap.Common.{◌≡◌, refl, false, Option, some}
use lldap.Common.Result.{err}
use lldap.Text.{Str, codes}
use lldap.Domain.Types.{External, GroupId, new_user_id}
use lldap.Domain.Backend.{Backend}
use lldap.Access.{
  ValidationResults, can_read_all, can_read, get_readonly_handler, get_readable_handler,
}
use lldap.Graphql.{FieldError, message, FieldResult, Group}
use lldap.Graphql.Filter.{RequestFilter}
use lldap.Graphql.Query.{user, users, group, groups, group_users}

-- The query fails with an error that does not depend on the database.
abbrev pub IsBlind : {S A : Type 0} → (S → FieldResult A) → Type 0
IsBlind {S} q = (e : FieldError) × ((s : S) → q s ≡ err e)

module _ ⦃lib : External⦄ {S : Type 0} (backend : Backend S) (v : ValidationResults) where
  -- For a user that may not read everything, the queries of users, of groups, of one group and of the
  -- members of a group fail with an error that does not depend on the database.
  pub queries-IsBlind :
      (filters : Option RequestFilter) (g : GroupId) (object : Group)
      → can_read_all v ≡ false
      → IsBlind (users backend v filters)
        × IsBlind (groups backend v)
        × IsBlind (group backend v g)
        × IsBlind (group_users backend v object)
  unfolding users groups group group_users get_readonly_handler
  queries-IsBlind filters g object h = (
    (message (codes "Unauthorized access to user list"), λ s. rw h refl),
    (message (codes "Unauthorized access to group list"), λ s. rw h refl),
    (message (codes "Unauthorized access to group data"), λ s. rw h refl),
    (message (codes "Unauthorized access to group data"), λ s. rw h refl),
  )

  -- For a user that may not read another, the query of that user fails in the same way.
  pub user-IsBlind :
      (name : Str) → can_read v (new_user_id name) ≡ false → IsBlind (user backend v (some name))
  unfolding user get_readable_handler
  user-IsBlind name h = (message (codes "Unauthorized access to user data"), λ s. rw h refl)
