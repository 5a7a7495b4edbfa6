-- ===== src/Storage/Users.antt =====
-- server/src/domain/sql_user_backend_handler.rs: the operations that change users. The time comes
-- from outside.
use lldap.Common.{ℕ, List, [], ◌∷◌, ◌++◌, nat_eq, if◌then◌else◌}
use lldap.Common.Exec.{pure, raise, lift, ask, ◌>>=◌, ◌>>◌}
use lldap.Text.{codes}
use lldap.Domain.Error.{DomainError, entity_not_found}
use lldap.Domain.Types.{External, UserId, GroupId, NaiveDateTime}
use lldap.Domain.Handler.{CreateUserRequest, UpdateUserRequest}
use lldap.Storage.{Database, Statement, debug_group_id}
use lldap.Storage.Schema.{get_schema_with_transaction}
use lldap.Storage.UserChanges.{update_model, new_user_model, field_rows, new_rows, update_changes}

-- `if !rows.is_empty() { .. }`
abbrev pub unless_empty : {S A : Type 0} → List A → Statement S Unit → Statement S Unit
unless_empty [] m = pure tt
unless_empty (x ∷ xs) m = m

-- `if res.rows_affected == 0 { return Err(..) }`
abbrev pub some_row : {S : Type 0} → DomainError → ℕ → Statement S Unit
some_row e rows_affected = if nat_eq rows_affected 0 then raise e else pure tt

module _ ⦃lib : External⦄ {S : Type 0} (db : Database S) where
  unfoldable pub update_user_with_transaction : UpdateUserRequest → Statement S Unit
  unfolding get_schema_with_transaction update_changes
  update_user_with_transaction request = do
    schema ← ask (get_schema_with_transaction db)
    changes ← lift (update_changes schema request)
    db.update_user (update_model request)
    unless_empty changes.remove (db.delete_user_attributes request.user_id changes.remove)
    unless_empty changes.update (db.upsert_user_attributes changes.update)

  unfoldable pub update_user : UpdateUserRequest → Statement S Unit
  unfolding update_user_with_transaction
  update_user request = db.transaction (update_user_with_transaction request)

  unfoldable pub create_user_with_transaction : NaiveDateTime → CreateUserRequest → Statement S Unit
  unfolding get_schema_with_transaction new_rows field_rows
  create_user_with_transaction now request = do
    schema ← ask (get_schema_with_transaction db)
    rows ←
        lift
          (new_rows schema.user_attributes request.user_id request.attributes (field_rows request))
    db.insert_user (new_user_model now request)
    unless_empty rows (db.insert_user_attributes rows)

  unfoldable pub create_user : NaiveDateTime → CreateUserRequest → Statement S Unit
  unfolding create_user_with_transaction
  create_user now request = db.transaction (create_user_with_transaction now request)

module _ {S : Type 0} (db : Database S) where
  unfoldable pub delete_user : UserId → Statement S Unit
  delete_user user_id = do
    rows ← db.delete_user user_id
    some_row (entity_not_found (codes "No such user: '" ++ user_id ++ codes "'")) rows

  unfoldable pub add_user_to_group : UserId → GroupId → Statement S Unit
  add_user_to_group user_id group_id = db.insert_membership user_id group_id

  unfoldable pub remove_user_from_group : UserId → GroupId → Statement S Unit
  remove_user_from_group user_id group_id = do
    rows ← db.delete_membership user_id group_id
    some_row
        (entity_not_found
          (codes "No such membership: '" ++ user_id ++ codes "' -> " ++ debug_group_id group_id))
        rows
