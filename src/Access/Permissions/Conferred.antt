-- ===== src/Access/Permissions/Conferred.antt =====
-- Which groups give which permission (server/src/infra/access_control.rs), by the members of the list.
use mathlib.Core.List.{Memᴰ}
use mathlib.Core.List.Memᴰ.{head, tail}
use lldap.Common.{◌≡◌, refl, true, false, List, [], ◌∷◌, inl, inr, Bool-cases, arith}
use lldap.Text.{Str, codes}
use lldap.Domain.Types.{External, UserId, GroupName}
use lldap.Domain.Types.Compare.{fold_case, eq_ignore_case, eq_ignore_case_iff}
use lldap.Access.{Permission, get_permissions_from_groups, is_in_group}

module _ ⦃lib : External⦄ where
  -- The list has a group whose name has the same case folding.
  abbrev pub HasGroup : List GroupName → Str → Type 0
  HasGroup groups name = (g : GroupName) × Memᴰ g groups × (fold_case g ≡ fold_case name)

  -- The groups that give a permission: the strongest of the three special ones, or none of them.
  abbrev pub Confers : List GroupName → Permission → Type 0
  Confers groups Permission.admin = HasGroup groups (codes "lldap_admin")
  Confers groups Permission.password_manager =
      (¬ HasGroup groups (codes "lldap_admin")) × HasGroup groups (codes "lldap_password_manager")
  Confers groups Permission.readonly =
      (¬ HasGroup groups (codes "lldap_admin"))
      × (¬ HasGroup groups (codes "lldap_password_manager"))
      × HasGroup groups (codes "lldap_strict_readonly")
  Confers groups Permission.regular =
      (¬ HasGroup groups (codes "lldap_admin"))
      × (¬ HasGroup groups (codes "lldap_password_manager"))
      × (¬ HasGroup groups (codes "lldap_strict_readonly"))

  is_in_group-HasGroup :
      (groups : List GroupName) (name : Str) → is_in_group groups name ≡ true → HasGroup groups name
  is_in_group-HasGroup [] name h = cc h
  is_in_group-HasGroup (g ∷ gs) name h = elim (Bool-cases (eq_ignore_case g name)) [
    | inl same ↦ (g, head refl, (eq_ignore_case_iff g name).0 same)
    | inr differ ↦ (let (x, m, e) = is_in_group-HasGroup gs name (rw differ at h) in (x, tail m, e))
  ]

  HasGroup-is_in_group :
      (groups : List GroupName) (name g : Str)
      → Memᴰ g groups
      → fold_case g ≡ fold_case name
      → is_in_group groups name ≡ true
  HasGroup-is_in_group [] name g m e = elim m [ ]
  HasGroup-is_in_group (x ∷ gs) name g (head same) e =
      rw ((eq_ignore_case_iff x name).1 (rw same at e)) refl
  HasGroup-is_in_group (x ∷ gs) name g (tail m) e =
      let rest : is_in_group gs name ≡ true = HasGroup-is_in_group gs name g m e in ground arith

  no_group :
      (groups : List GroupName) (name : Str)
      → is_in_group groups name ≡ false
      → ¬ HasGroup groups name
  no_group groups name h (g, m, e) =
      let hit : is_in_group groups name ≡ true = HasGroup-is_in_group groups name g m e in
      cc (h, hit)

  -- The permission of a user is the one that its groups confer, by the names among them and not by
  -- their order or number: an administrator has the group lldap_admin; a password manager has
  -- lldap_password_manager and not that; a reader has lldap_strict_readonly and neither of those; a
  -- regular user has none of the three. Names are compared by their case foldings.
  pub get_permissions-Confers :
      (u : UserId) (groups : List GroupName)
      → Confers groups (get_permissions_from_groups u groups).permission
        × ((get_permissions_from_groups u groups).user ≡ u)
  unfolding get_permissions_from_groups
  get_permissions-Confers u groups =
      let admin = codes "lldap_admin" in
      let manager = codes "lldap_password_manager" in
      let reader = codes "lldap_strict_readonly" in
      elim (Bool-cases (is_in_group groups admin)) [
        | inl a ↦ rw a (is_in_group-HasGroup groups admin a, refl)
        | inr a ↦ elim (Bool-cases (is_in_group groups manager)) [
          | inl m ↦
              rw (a, m) ((no_group groups admin a, is_in_group-HasGroup groups manager m), refl)
          | inr m ↦ elim (Bool-cases (is_in_group groups reader)) [
            | inl r ↦
                rw (a, m, r)
                  (
                    (
                      no_group groups admin a,
                      no_group groups manager m,
                      is_in_group-HasGroup groups reader r,
                    ),
                    refl,
                  )
            | inr r ↦
                rw (a, m, r)
                  (
                    (no_group groups admin a, no_group groups manager m, no_group groups reader r),
                    refl,
                  )
          ]
        ]
      ]
