-- ===== src/Storage/Backend.antt =====
-- `SqlBackendHandler` (server/src/domain/sql_backend_handler.rs and its fellows) as a backend: the
-- operations of the children under the names of the traits. The clock is stopped at `now`.
use lldap.Domain.Types.{External, NaiveDateTime}
use lldap.Domain.Backend.{Backend}
use lldap.Storage.{Database}
use lldap.Storage.Schema
use lldap.Storage.Users
use lldap.Storage.UserQueries
use lldap.Storage.Groups
use lldap.Storage.GroupQueries
use lldap.Storage.Login
use lldap.Storage.Opaque
use lldap.Storage.Opaque.{OpaqueServer}

module _ ⦃lib : External⦄ {S : Type 0} (opaque : OpaqueServer) (db : Database S)
    (now : NaiveDateTime) where
  unfoldable pub sql_backend : Backend S
  sql_backend = record {
    get_schema = λ s. (Schema.get_schema db s).0;
    list_users = UserQueries.list_users db;
    list_groups = GroupQueries.list_groups db;
    get_user_groups = UserQueries.get_user_groups db;
    create_user = Users.create_user db now;
    bind = Login.bind opaque db;
    registration_start = λ u message s. Opaque.registration_start opaque u message;
    registration_finish = Login.registration_finish opaque db;
    get_user_details = UserQueries.get_user_details db;
    update_user = Users.update_user db;
    delete_user = Users.delete_user db;
    add_user_to_group = Users.add_user_to_group db;
    remove_user_from_group = Users.remove_user_from_group db;
    get_group_details = GroupQueries.get_group_details db;
    update_group = Groups.update_group db;
    create_group = Groups.create_group db now;
    delete_group = Groups.delete_group db;
    add_user_attribute = Schema.add_user_attribute db;
    add_group_attribute = Schema.add_group_attribute db;
    delete_user_attribute = Schema.delete_user_attribute db;
    delete_group_attribute = Schema.delete_group_attribute db;
    add_user_object_class = Schema.add_user_object_class db;
    add_group_object_class = Schema.add_group_object_class db;
    delete_user_object_class = Schema.delete_user_object_class db;
    delete_group_object_class = Schema.delete_group_object_class db;
  }
