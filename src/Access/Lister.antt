-- ===== src/Access/Lister.antt =====
-- What an unprivileged user can list: itself, its own groups, and the visible attributes.
use mathlib.Core.List.{Memᴰ}
use lldap.Common.{
  ◌≡◌, Bool, true, false, Option, none, some, List, All, All-map, All-zip, All-Mem, any, retain-All,
}
use lldap.Common.Result.{ok, >>=-eq-ok}
use lldap.Text.{◌==◌}
use lldap.Domain.Types.{UserId, Group, UserAndGroups}
use lldap.Domain.Handler.{
  UserRequestFilter, UserRequestFilters, GroupRequestFilter, GroupRequestFilters, Schema,
}
use lldap.Domain.Backend.{Backend}
use lldap.Access.{
  ValidationResults, can_read_all, restrict_users, restrict_groups, restrict_schema,
  get_user_restricted_lister_handler, lister_get_schema, lister_list_users, lister_list_groups,
}

-- What a backend promises of its lists: they hold only entries that the filter selects, a
-- conjunction selects no more than its last part, a user id only that user, and a member only
-- groups with that member.
pub record SelectsByFilter {S : Type 0} (b : Backend S) : Type 1 where
  pub SelectsUser : S → UserRequestFilter → UserAndGroups → Type 0
  pub SelectsGroup : S → GroupRequestFilter → Group → Type 0
  pub list_users_selects :
      (f : UserRequestFilter) (get_groups : Bool) (s : S) (us : List UserAndGroups)
      → b.list_users (some f) get_groups s ≡ ok us
      → All (SelectsUser s f) us
  pub list_groups_selects :
      (f : GroupRequestFilter) (s : S) (gs : List Group)
      → b.list_groups (some f) s ≡ ok gs
      → All (SelectsGroup s f) gs
  pub user_and :
      (s : S) (f g : UserRequestFilter) (u : UserAndGroups)
      → SelectsUser s
          (UserRequestFilter.and
            (UserRequestFilters.cons f (UserRequestFilters.cons g UserRequestFilters.nil)))
          u
      → SelectsUser s g u
  pub group_and :
      (s : S) (f g : GroupRequestFilter) (x : Group)
      → SelectsGroup s
          (GroupRequestFilter.and
            (GroupRequestFilters.cons f (GroupRequestFilters.cons g GroupRequestFilters.nil)))
          x
      → SelectsGroup s g x
  pub user_id :
      (s : S) (i : UserId) (u : UserAndGroups)
      → SelectsUser s (UserRequestFilter.user_id i) u
      → u.user.user_id ≡ i
  pub member :
      (s : S) (i : UserId) (g : Group)
      → SelectsGroup s (GroupRequestFilter.member i) g
      → any (λ u. u == i) g.users ≡ true

-- Over a backend whose lists keep to their filters, a list of users that a user without
-- `can_read_all` gets has that user only, whatever the filter.
pub lister_users_own :
    {S : Type 0} (b : Backend S) (laws : SelectsByFilter b) (v : ValidationResults)
    (filters : Option UserRequestFilter) (get_groups : Bool) (s : S) (us : List UserAndGroups)
    → can_read_all v ≡ false
    → lister_list_users (get_user_restricted_lister_handler b v) filters get_groups s ≡ ok us
    → All (λ u. u.user.user_id ≡ v.user) us
unfolding lister_list_users get_user_restricted_lister_handler restrict_users
lister_users_own b laws v none g s us n h =
    All-map (laws.user_id s v.user) us
      (laws.list_users_selects (UserRequestFilter.user_id v.user) g s us (rw n at h))
lister_users_own b laws v (some f) g s us n h =
    All-map (λ u w. laws.user_id s v.user u (laws.user_and s f _ u w)) us
      (laws.list_users_selects _ g s us (rw n at h))

-- Over a backend whose lists keep to their filters, every group in a list that a user without
-- `can_read_all` gets has that user as a member, whatever the filter.
pub lister_groups_member :
    {S : Type 0} (b : Backend S) (laws : SelectsByFilter b) (v : ValidationResults)
    (filters : Option GroupRequestFilter) (s : S) (gs : List Group)
    → can_read_all v ≡ false
    → lister_list_groups (get_user_restricted_lister_handler b v) filters s ≡ ok gs
    → All (λ g. any (λ u. u == v.user) g.users ≡ true) gs
unfolding lister_list_groups get_user_restricted_lister_handler restrict_groups
lister_groups_member b laws v none s gs n h =
    All-map (laws.member s v.user) gs (laws.list_groups_selects _ s gs (rw n at h))
lister_groups_member b laws v (some f) s gs n h =
    All-map (λ g w. laws.member s v.user g (laws.group_and s f _ g w)) gs
      (laws.list_groups_selects _ s gs (rw n at h))

-- A group that the backend lists, with the user as a member.
abbrev pub OwnGroup : {S : Type 0} → Backend S → UserId → S → Group → Type 0
OwnGroup b user s g =
    ((f : Option GroupRequestFilter) × (gs : List Group) × (b.list_groups f s ≡ ok gs) × Memᴰ g gs)
    × (any (λ u. u == user) g.users ≡ true)

-- Over a backend whose lists keep to their filters, every group in a list that a user without
-- `can_read_all` gets is one that the backend lists with that user as a member.
pub lister_groups_own :
    {S : Type 0} (b : Backend S) (laws : SelectsByFilter b) (v : ValidationResults)
    (filters : Option GroupRequestFilter) (s : S) (gs : List Group)
    → can_read_all v ≡ false
    → lister_list_groups (get_user_restricted_lister_handler b v) filters s ≡ ok gs
    → All (OwnGroup b v.user s) gs
unfolding lister_list_groups get_user_restricted_lister_handler
lister_groups_own b laws v filters s gs n h =
    All-zip gs (λ g m k. ((restrict_groups filters (some v.user), gs, rw n at h, m), k))
      (All-Mem gs) (lister_groups_member b laws v filters s gs n h)

-- Every attribute in the schema that a user without `can_read_all` reads is visible.
pub lister_schema_visible :
    {S : Type 0} (b : Backend S) (v : ValidationResults) (s : S) (schema : Schema)
    → can_read_all v ≡ false
    → lister_get_schema (get_user_restricted_lister_handler b v) s ≡ ok schema
    → All (λ a. a.is_visible ≡ true) schema.user_attributes.attributes
      × All (λ a. a.is_visible ≡ true) schema.group_attributes.attributes
unfolding lister_get_schema get_user_restricted_lister_handler
lister_schema_visible b v s schema n h =
    let (full, _, e) = >>=-eq-ok (b.get_schema s) _ (rw n at h) in
    let same : restrict_schema (some v.user) full ≡ schema = cc in
    rw (← same) (retain-All _ _, retain-All _ _)
