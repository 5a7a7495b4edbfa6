-- ===== src/Access/Permissions.antt =====
-- What the permissions of a bound user allow, and how they follow from its groups.
pub mod Conferred
use lldap.Common.{
  ℕ, ◌≤◌, ◌≡◌, refl, ◌∙◌, Bool, false, not, ◌&&◌, none, List, ◌++◌, any, any-append, arith,
}
use lldap.Text.{◌==◌, codes}
use lldap.Domain.Types.{External, UserId, GroupName}
use lldap.Domain.Types.Compare.{eq_ignore_case}
use lldap.Domain.Backend.{Backend}
use lldap.Access.{
  Permission, ValidationResults, is_admin, can_read_all, can_read, can_change_password, can_write,
  get_permissions_from_groups, get_admin_handler, get_readonly_handler, get_writeable_handler,
  get_readable_handler,
}

-- A user without privileges gets neither the administrator's handler nor the one that lists all,
-- for another user no handler to read or to write it, and cannot change its password.
pub regular_confined :
    {S : Type 0} (handler : Backend S) (v : ValidationResults) (u : UserId) (user_is_admin : Bool)
    → v.permission ≡ Permission.regular
    → (v.user == u) ≡ false
    → (get_admin_handler handler v ≡ none)
      × (get_readonly_handler handler v ≡ none)
      × (get_writeable_handler handler v u ≡ none)
      × (get_readable_handler handler v u ≡ none)
      × (can_change_password v u user_is_admin ≡ false)
unfolding get_admin_handler get_readonly_handler get_writeable_handler get_readable_handler is_admin
    can_read_all can_read can_change_password can_write
regular_confined handler v u a p h = rw (p, h) (refl, refl, refl, refl, refl)

-- Whoever may write a user may change its password, and whoever may do that may read the user.
pub write_change_read :
    (v : ValidationResults) (u : UserId) (user_is_admin : Bool)
    → ((can_write v u && not (can_change_password v u user_is_admin)) ≡ false)
      × ((can_change_password v u user_is_admin && not (can_read v u)) ≡ false)
unfolding can_read can_change_password can_write
write_change_read v u a = ground arith

-- The order of the permissions, by what they allow.
abbrev pub rank : Permission → ℕ
rank Permission.admin = 3
rank Permission.password_manager = 2
rank Permission.readonly = 1
rank Permission.regular = 0

module _ ⦃lib : External⦄ where
  -- More groups never lower a user's permission.
  pub permissions_grow :
      (u : UserId) (more groups : List GroupName)
      → rank (get_permissions_from_groups u groups).permission
        ≤ rank (get_permissions_from_groups u (more ++ groups)).permission
  unfolding get_permissions_from_groups
  permissions_grow u more groups =
      rw
        (
          any-append (λ g. eq_ignore_case g (codes "lldap_admin")) more groups,
          any-append (λ g. eq_ignore_case g (codes "lldap_password_manager")) more groups,
          any-append (λ g. eq_ignore_case g (codes "lldap_strict_readonly")) more groups,
        )
        (ground arith)
