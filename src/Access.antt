-- ===== src/Access.antt =====
-- server/src/infra/access_control.rs: the permissions of a bound user, and the handlers that they
-- give. The blanket implementations that only forward to the backend are the backend itself.
pub mod Permissions
pub mod Lister
use lldap.Common.{
  Bool, true, false, not, ◌&&◌, ◌||◌, Option, none, some, List, [], ◌∷◌, map, any, retain,
  if◌then◌else◌,
}
use lldap.Common.Result.{Result, ok, err, panic, ◌>>=◌}
use lldap.Text.{◌==◌, codes}
use lldap.Domain.Error.{DomainResult}
use lldap.Domain.Types.{External, UserId, GroupName, Group, UserAndGroups, GroupDetails}
use lldap.Domain.Types.Compare.{eq_ignore_case}
use lldap.Domain.Handler.{
  UserRequestFilter, UserRequestFilters, GroupRequestFilter, GroupRequestFilters, AttributeSchema,
  AttributeList, Schema,
}
use lldap.Domain.Backend.{Backend}

pub data Permission : Type 0 where
  admin password_manager readonly regular : Permission

pub record ValidationResults : Type 0 where
  pub user : UserId
  pub permission : Permission

abbrev pub permission_eq : Permission → Permission → Bool
permission_eq Permission.admin Permission.admin = true
permission_eq Permission.password_manager Permission.password_manager = true
permission_eq Permission.readonly Permission.readonly = true
permission_eq Permission.regular Permission.regular = true
permission_eq _ _ = false

unfoldable pub is_admin : ValidationResults → Bool
is_admin v = permission_eq v.permission Permission.admin

unfoldable pub can_read_all : ValidationResults → Bool
can_read_all v =
    permission_eq v.permission Permission.admin
    || permission_eq v.permission Permission.readonly
    || permission_eq v.permission Permission.password_manager

unfoldable pub can_read : ValidationResults → UserId → Bool
can_read v user =
    permission_eq v.permission Permission.admin
    || permission_eq v.permission Permission.password_manager
    || permission_eq v.permission Permission.readonly
    || v.user == user

unfoldable pub can_change_password : ValidationResults → UserId → Bool → Bool
can_change_password v user user_is_admin =
    permission_eq v.permission Permission.admin
    || (permission_eq v.permission Permission.password_manager && not user_is_admin)
    || v.user == user

unfoldable pub can_write : ValidationResults → UserId → Bool
can_write v user = permission_eq v.permission Permission.admin || v.user == user

module _ ⦃lib : External⦄ where
  abbrev pub is_in_group : List GroupName → GroupName → Bool
  is_in_group groups name = any (λ g. eq_ignore_case g name) groups

  unfoldable pub get_permissions_from_groups : UserId → List GroupName → ValidationResults
  get_permissions_from_groups user_id groups = record {
    user = user_id;
    permission =
        if is_in_group groups (codes "lldap_admin")
        then Permission.admin
        else if is_in_group groups (codes "lldap_password_manager")
        then Permission.password_manager
        else if is_in_group groups (codes "lldap_strict_readonly")
        then Permission.readonly
        else Permission.regular;
  }

-- `bool::then_some`
abbrev pub then_some {ℓ} : {A : Type ℓ} → Bool → A → Option A
then_some b a = if b then some a else none

-- `UserRestrictedListerBackendHandler`
pub record RestrictedLister (S : Type 0) : Type 0 where
  pub handler : Backend S
  pub user_filter : Option UserId

abbrev pub visible_only : AttributeList → AttributeList
visible_only l = record { attributes = retain (λ a. a.is_visible) l.attributes }

abbrev pub restrict_schema : Option UserId → Schema → Schema
restrict_schema none schema = schema
restrict_schema (some u) schema = record schema {
  user_attributes = visible_only schema.user_attributes;
  group_attributes = visible_only schema.group_attributes;
}

-- The filter that the lister hands to the backend.
unfoldable pub restrict_users : Option UserRequestFilter → Option UserId → Option UserRequestFilter
restrict_users none none = none
restrict_users none (some u) = some (UserRequestFilter.user_id u)
restrict_users (some f) none = some f
restrict_users (some f) (some u) = some (
    UserRequestFilter.and (
      UserRequestFilters.cons f
        (UserRequestFilters.cons (UserRequestFilter.user_id u) UserRequestFilters.nil)))

unfoldable pub restrict_groups :
    Option GroupRequestFilter → Option UserId → Option GroupRequestFilter
restrict_groups none none = none
restrict_groups none (some u) = some (GroupRequestFilter.member u)
restrict_groups (some f) none = some f
restrict_groups (some f) (some u) = some (
    GroupRequestFilter.and (
      GroupRequestFilters.cons f
        (GroupRequestFilters.cons (GroupRequestFilter.member u) GroupRequestFilters.nil)))

-- The methods of `AccessControlledBackendHandler`, over its backend, and those of the lister.
module _ {S : Type 0} where
  unfoldable pub get_admin_handler : Backend S → ValidationResults → Option (Backend S)
  get_admin_handler handler v = then_some (is_admin v) handler

  unfoldable pub get_readonly_handler : Backend S → ValidationResults → Option (Backend S)
  get_readonly_handler handler v = then_some (can_read_all v) handler

  unfoldable pub get_writeable_handler : Backend S → ValidationResults → UserId → Option (Backend S)
  get_writeable_handler handler v user_id = then_some (can_write v user_id) handler

  unfoldable pub get_readable_handler : Backend S → ValidationResults → UserId → Option (Backend S)
  get_readable_handler handler v user_id = then_some (can_read v user_id) handler

  unfoldable pub get_user_restricted_lister_handler :
      Backend S → ValidationResults → RestrictedLister S
  get_user_restricted_lister_handler handler v = record {
    handler = handler;
    user_filter = if can_read_all v then none else some v.user;
  }

  unfoldable pub lister_get_schema : RestrictedLister S → S → DomainResult Schema
  lister_get_schema l s = do
    schema ← l.handler.get_schema s
    ok (restrict_schema l.user_filter schema)

  unfoldable pub lister_list_users :
      RestrictedLister S → Option UserRequestFilter → Bool → S → DomainResult (List UserAndGroups)
  lister_list_users l filters get_groups s =
      l.handler.list_users (restrict_users filters l.user_filter) get_groups s

  unfoldable pub lister_list_groups :
      RestrictedLister S → Option GroupRequestFilter → S → DomainResult (List Group)
  lister_list_groups l filters s = l.handler.list_groups (restrict_groups filters l.user_filter) s

module _ ⦃lib : External⦄ {S : Type 0} where
  unfoldable pub get_permissions_for_user : Backend S → UserId → S → DomainResult ValidationResults
  get_permissions_for_user handler user_id s = do
    user_groups ← handler.get_user_groups user_id s
    ok (get_permissions_from_groups user_id (map (λ g. g.display_name) user_groups))
