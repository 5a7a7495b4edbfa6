-- ===== src/Storage/GroupQueries.antt =====
-- server/src/domain/sql_group_backend_handler.rs: the queries of the groups.
use lldap.Common.{Option, none, some, List, map}
use lldap.Common.Result.{ok, ◌>>=◌, ok_or}
use lldap.Domain.Error.{entity_not_found}
use lldap.Domain.Types.{External, GroupId, Group, GroupDetails}
use lldap.Domain.Handler.{GroupRequestFilter}
use lldap.Domain.Sql.{Cond, get_group_filter_expr}
use lldap.Storage.{Database, Query, details_of_row, value_of_group_row, debug_group_id}
use lldap.Storage.GroupRows.{attach_group_attributes, group_with_users, sort_groups}

module _ ⦃lib : External⦄ {S : Type 0} (db : Database S) where
  abbrev group_condition : Option GroupRequestFilter → Option Cond
  group_condition none = none
  group_condition (some f) = some (get_group_filter_expr f)

  unfoldable pub list_groups : Option GroupRequestFilter → Query S (List Group)
  unfolding attach_group_attributes sort_groups
  list_groups filters s = do
    results ← db.find_groups (group_condition filters) s
    attributes ← db.find_group_attributes (group_condition filters) s
    ok (sort_groups (attach_group_attributes (map group_with_users results) attributes))

module _ {S : Type 0} (db : Database S) where
  unfoldable pub get_group_details : GroupId → Query S GroupDetails
  get_group_details group_id s = do
    found ← db.find_group group_id s
    row ← ok_or (entity_not_found (debug_group_id group_id)) found
    attributes ← db.attributes_of_group row.group_id s
    ok (record (details_of_row row) { attributes = map value_of_group_row attributes })
