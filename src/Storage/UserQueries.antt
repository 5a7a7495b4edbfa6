-- ===== src/Storage/UserQueries.antt =====
-- server/src/domain/sql_user_backend_handler.rs: the queries of the users.
use lldap.Common.{Bool, true, Option, none, some, List, map}
use lldap.Common.Result.{ok, ok_or, ◌>>=◌}
use lldap.Domain.Error.{DomainResult, entity_not_found}
use lldap.Domain.Types.{External, UserId, User, UserAndGroups, GroupDetails}
use lldap.Domain.Handler.{UserRequestFilter}
use lldap.Domain.Sql.{Atom, Cond, get_user_filter_expr}
use lldap.Storage.{Database, Query, user_of_row, details_of_row, value_of_user_row}
use lldap.Storage.UserRows.{attach_user_attributes, user_and_groups}

module _ ⦃lib : External⦄ where
  abbrev pub filter_or_all : Option UserRequestFilter → DomainResult Cond
  filter_or_all none = ok (Cond.atom (Atom.value true))
  filter_or_all (some f) = get_user_filter_expr f

  module _ {S : Type 0} (db : Database S) where
    unfoldable pub list_users : Option UserRequestFilter → Bool → Query S (List UserAndGroups)
    unfolding attach_user_attributes
    list_users filters _get_groups s = do
      condition ← filter_or_all filters
      users ← db.find_users condition s
      attributes ← db.find_user_attributes condition s
      ok (attach_user_attributes (map user_and_groups users) attributes)

    unfoldable pub get_user_details : UserId → Query S User
    get_user_details user_id s = do
      found ← db.find_user user_id s
      row ← ok_or (entity_not_found user_id) found
      attributes ← db.attributes_of_user user_id s
      ok (record (user_of_row row) { attributes = map value_of_user_row attributes })

    -- The `HashSet` is built from these.
    unfoldable pub get_user_groups : UserId → Query S (List GroupDetails)
    get_user_groups user_id s = do
      found ← db.find_user user_id s
      row ← ok_or (entity_not_found user_id) found
      groups ← db.groups_of_user row s
      ok (map details_of_row groups)
