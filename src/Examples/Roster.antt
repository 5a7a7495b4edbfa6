-- ===== src/Examples/Roster.antt =====
-- A backend that keeps the memberships alone.
use lldap.Common.{Bool, true, false, ◌&&◌, ◌≡◌, refl, [], if◌then◌else◌}
use lldap.Common.Int.{pos}
use lldap.Common.Result.{Result, ok}
use lldap.Text.{◌==◌}
use lldap.Domain.Error.{DomainError}
use lldap.Domain.Types.{UserId, GroupId}
use lldap.Domain.Backend.{Backend}
use lldap.Storage.GroupRows.{same_group}
use lldap.Graphql.Memberships.{MembershipLaws}
use lldap.Examples.World.{ann, admins, account, full_schema}

pub record Roster : Type 0 where
  pub members : UserId → GroupId → Bool

abbrev same : Roster → Result DomainError (Unit {0}) × Roster
same s = (ok tt, s)

abbrev pub roster : Backend Roster
roster = record {
  get_schema = λ s. ok full_schema;
  list_users = λ f g s. ok [];
  list_groups = λ f s. ok [];
  get_user_groups = λ u s. ok [];
  create_user = λ r. same;
  bind = λ q s. ok tt;
  registration_start = λ u m s. ok (record { server_data = u; registration_response = m });
  registration_finish = λ d m. same;
  get_user_details = λ u s. ok (account u).user;
  update_user = λ r. same;
  delete_user =
      λ u s. (ok tt, record s { members = λ v g. if v == u then false else s.members v g });
  add_user_to_group = λ u h s. (
    ok tt,
    record s { members = λ v g. if (v == u) && same_group h g then true else s.members v g },
  );
  remove_user_from_group = λ u h s. (
    ok tt,
    record s { members = λ v g. if (v == u) && same_group h g then false else s.members v g },
  );
  get_group_details = λ g s. ok admins;
  update_group = λ r. same;
  create_group = λ r s. (ok (pos 3), s);
  delete_group =
      λ h s. (ok tt, record s { members = λ v g. if same_group h g then false else s.members v g });
  add_user_attribute = λ r. same;
  add_group_attribute = λ r. same;
  delete_user_attribute = λ n. same;
  delete_group_attribute = λ n. same;
  add_user_object_class = λ n. same;
  add_group_object_class = λ n. same;
  delete_user_object_class = λ n. same;
  delete_group_object_class = λ n. same;
}

-- Ann is the only administrator.
abbrev pub ann_alone : Roster
ann_alone = record { members = λ u g. (u == ann) && same_group g (pos 1) }

pub or_true : (b c : Bool) → c ≡ true → (if b then true else c) ≡ true
or_true true c h = refl
or_true false c h = h

unfoldable pub membership : MembershipLaws roster
membership = record {
  Member = λ u g s. s.members u g ≡ true;
  create_user = λ u g r s p. p;
  update_user = λ u g r s p. p;
  delete_user = λ u g other differ s p. rw differ p;
  add_user_to_group = λ u g v h s p. or_true ((u == v) && same_group h g) (s.members u g) p;
  remove_user_from_group = λ u g v h differ s p. rw differ p;
  update_group = λ u g r s p. p;
  create_group = λ u g r s p. p;
  delete_group = λ u g h differ s p. rw differ p;
  add_user_attribute = λ u g r s p. p;
  add_group_attribute = λ u g r s p. p;
  delete_user_attribute = λ u g n s p. p;
  delete_group_attribute = λ u g n s p. p;
  add_user_object_class = λ u g n s p. p;
  add_group_object_class = λ u g n s p. p;
  delete_user_object_class = λ u g n s p. p;
  delete_group_object_class = λ u g n s p. p;
}
