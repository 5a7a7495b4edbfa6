-- ===== src/Server/Search/Entries.antt =====
-- Which entries an unprivileged user is shown, whatever the request.
use lldap.Common.{◌≡◌, ◌⊎◌}
use lldap.Text.{Str}
use lldap.Domain.Types.{UserId, Group}
use lldap.Domain.Backend.{Backend}
use lldap.Ldap.Filter.{LdapOp}
use lldap.Ldap.User.{user_dn, group_dn}

-- The name of an entry that the user may be shown: its own, that of one of some groups, or the base of
-- the request.
abbrev pub IsOwnName : (Group → Type 0) → UserId → Str → Str → Str → Type 0
IsOwnName Q u base_dn_str base dn =
    (dn ≡ user_dn u base_dn_str)
    ⊎ (((g : Group) × Q g × (dn ≡ group_dn g.display_name base_dn_str)) ⊎ (dn ≡ base))

abbrev pub IsOwn : (Group → Type 0) → UserId → Str → Str → LdapOp → Type 0
IsOwn Q u base_dn_str base (LdapOp.search_result_entry e) = IsOwnName Q u base_dn_str base e.dn
IsOwn Q u base_dn_str base _ = Unit
