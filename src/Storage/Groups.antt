-- ===== src/Storage/Groups.antt =====
-- server/src/domain/sql_group_backend_handler.rs: the operations that change groups.
use lldap.Common.{◌++◌}
use lldap.Common.Exec.{pure, lift, ask, ◌>>=◌, ◌>>◌}
use lldap.Text.{codes}
use lldap.Domain.Error.{entity_not_found}
use lldap.Domain.Types.{External, GroupId, NaiveDateTime}
use lldap.Domain.Handler.{CreateGroupRequest, UpdateGroupRequest}
use lldap.Storage.{Database, Statement, debug_group_id}
use lldap.Storage.Schema.{get_schema_with_transaction}
use lldap.Storage.Users.{unless_empty, some_row}
use lldap.Storage.GroupRows.{
  new_group_model, update_group_model, group_rows, group_removals, not_inserted,
  not_inserted_in_new,
}

module _ ⦃lib : External⦄ {S : Type 0} (db : Database S) where
  unfoldable pub update_group_with_transaction : UpdateGroupRequest → Statement S Unit
  unfolding get_schema_with_transaction group_rows group_removals
  update_group_with_transaction request = do
    db.update_group (update_group_model request)
    schema ← ask (get_schema_with_transaction db)
    updated ←
        lift (
          group_rows not_inserted schema.group_attributes request.group_id
            request.insert_attributes)
    removed ← lift (group_removals schema.group_attributes request.delete_attributes)
    unless_empty removed (db.delete_group_attributes request.group_id removed)
    unless_empty updated (db.upsert_group_attributes updated)

  unfoldable pub update_group : UpdateGroupRequest → Statement S Unit
  unfolding update_group_with_transaction
  update_group request = db.transaction (update_group_with_transaction request)

  unfoldable pub create_group_with_transaction :
      NaiveDateTime → CreateGroupRequest → Statement S GroupId
  unfolding get_schema_with_transaction group_rows
  create_group_with_transaction now request = do
    schema ← ask (get_schema_with_transaction db)
    group_id ← db.insert_group (new_group_model now request)
    rows ← lift (group_rows not_inserted_in_new schema.group_attributes group_id request.attributes)
    unless_empty rows (db.insert_group_attributes rows)
    pure group_id

  unfoldable pub create_group : NaiveDateTime → CreateGroupRequest → Statement S GroupId
  unfolding create_group_with_transaction
  create_group now request = db.transaction (create_group_with_transaction now request)

module _ {S : Type 0} (db : Database S) where
  unfoldable pub delete_group : GroupId → Statement S Unit
  delete_group group_id = do
    rows ← db.delete_group group_id
    some_row (entity_not_found (codes "No such group: '" ++ debug_group_id group_id ++ codes "'"))
        rows
