-- ===== src/Storage/UserRows.antt =====
-- server/src/domain/sql_user_backend_handler.rs: the loop that gives each user of a list its
-- attributes.
use lldap.Common.{some, List, [], ◌∷◌, map, if◌then◌else◌}
use lldap.Text.{◌==◌}
use lldap.Domain.Types.{UserId, UserAndGroups}
use lldap.Storage.{
  UserAttributeRow, UserRow, GroupRow, user_of_row, details_of_row, value_of_user_row,
}

-- The rows of a sorted list at its front that belong to a user, and what follows them: what
-- `take_while_ref` takes from the iterator, and what it leaves there.
unfoldable pub take_user_rows : UserId → List UserAttributeRow → List UserAttributeRow
take_user_rows u [] = []
take_user_rows u (row ∷ rows) =
    let rest = take_user_rows u rows in if row.user_id == u then row ∷ rest else []

unfoldable pub skip_user_rows : UserId → List UserAttributeRow → List UserAttributeRow
skip_user_rows u [] = []
skip_user_rows u (row ∷ rows) =
    let rest = skip_user_rows u rows in if row.user_id == u then rest else row ∷ rows

abbrev pub with_attributes : UserAndGroups → List UserAttributeRow → UserAndGroups
with_attributes u rows = record u {
  user = record u.user { attributes = map value_of_user_row rows };
}

-- The loop that gives each user its attributes.
unfoldable pub attach_user_attributes :
    List UserAndGroups → List UserAttributeRow → List UserAndGroups
unfolding take_user_rows skip_user_rows
attach_user_attributes [] rows = []
attach_user_attributes (u ∷ us) rows =
    with_attributes u (take_user_rows u.user.user_id rows)
    ∷ attach_user_attributes us (skip_user_rows u.user.user_id rows)

abbrev pub user_and_groups : UserRow × List GroupRow → UserAndGroups
user_and_groups (row, groups) = record {
  user = user_of_row row;
  groups = some (map details_of_row groups);
}
