-- ===== src/Ldap/Group/Members.antt =====
-- Which members of a group a restricted user is shown.
use lldap.Common.{
  ◌≡◌, refl, inl, inr, Option, none, some, List, [], ◌∷◌, map, All, retain, Bool-cases,
}
use lldap.Common.Result.{OnOk}
use lldap.Text.{Str, ◌==◌}
use lldap.Text.Laws.{==_iff}
use lldap.Text.Utf8.{into_bytes}
use lldap.Domain.Types.{External, AttributeName, Group, UserId}
use lldap.Domain.Schema.{PublicSchema}
use lldap.Ldap.Fields.{GroupFieldType}
use lldap.Ldap.User.{user_dn}
use lldap.Ldap.Group.{visible_members, field_values}

-- The value, if there is one, of an attribute of an entry has only values with the property.
abbrev pub OnSome : {A : Type 0} → (A → Type 0) → Option A → Type 0
OnSome P none = Unit
OnSome P (some a) = P a

own_members :
    (u : UserId) (users : List UserId) (base : Str)
    → All
        (λ v. v ≡ into_bytes (user_dn u base))
        (map (λ x. into_bytes (user_dn x base)) (visible_members (some u) users))
unfolding visible_members retain
own_members u [] base = tt
own_members u (x ∷ users) base = elim (Bool-cases (x == u)) [
  | inl own ↦
      (let same = (==_iff x u).0 own in
        let rest = own_members u users base in rw own (rw same refl, rest))
  | inr other ↦ (let rest = own_members u users base in rw other rest)
]

module _ ⦃lib : External⦄ where
  -- The values of a group's attribute `member`, restricted to a user, name no other user.
  pub members-own :
      (g : Group) (base : Str) (attribute : AttributeName) (u : UserId)
      (ignored : List AttributeName) (schema : PublicSchema)
      → OnOk
          (OnSome (All (λ v. v ≡ into_bytes (user_dn u base))))
          (field_values GroupFieldType.member g base attribute (some u) ignored schema)
  unfolding field_values
  members-own g base attribute u ignored schema = own_members u g.users base
