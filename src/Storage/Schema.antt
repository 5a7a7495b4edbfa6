-- ===== src/Storage/Schema.antt =====
-- server/src/domain/sql_schema_backend_handler.rs: the schema of the attributes.
use lldap.Common.{false, List, map}
use lldap.Common.Result.{ok, ◌>>=◌}
use lldap.Common.Exec.{ask}
use lldap.Text.{to_ascii_lowercase}
use lldap.Domain.Types.{AttributeName, LdapObjectClass}
use lldap.Domain.Handler.{AttributeSchema, Schema, CreateAttributeRequest}
use lldap.Storage.{
  Database, Query, Statement, ObjectClassRow, schema_of_user_row, schema_of_group_row,
}

abbrev class_of_row : ObjectClassRow → LdapObjectClass
class_of_row row = row.object_class

abbrev new_class : LdapObjectClass → ObjectClassRow
new_class name = record { lower_object_class = to_ascii_lowercase name; object_class = name }

module _ {S : Type 0} (db : Database S) where
  abbrev pub get_user_attributes : Query S (List AttributeSchema)
  get_user_attributes s = do rows ← db.user_attribute_schema s; ok (map schema_of_user_row rows)

  abbrev pub get_group_attributes : Query S (List AttributeSchema)
  get_group_attributes s = do rows ← db.group_attribute_schema s; ok (map schema_of_group_row rows)

  abbrev pub get_user_object_classes : Query S (List LdapObjectClass)
  get_user_object_classes s = do rows ← db.user_object_classes s; ok (map class_of_row rows)

  abbrev pub get_group_object_classes : Query S (List LdapObjectClass)
  get_group_object_classes s = do rows ← db.group_object_classes s; ok (map class_of_row rows)

  unfoldable pub get_schema_with_transaction : Query S Schema
  get_schema_with_transaction s = do
    users ← get_user_attributes s
    groups ← get_group_attributes s
    user_classes ← get_user_object_classes s
    group_classes ← get_group_object_classes s
    ok (record {
      user_attributes = record { attributes = users };
      group_attributes = record { attributes = groups };
      extra_user_object_classes = user_classes;
      extra_group_object_classes = group_classes;
    })

  abbrev pub get_schema : Statement S Schema
  get_schema = db.transaction (ask get_schema_with_transaction)

  unfoldable pub add_user_attribute : CreateAttributeRequest → Statement S Unit
  add_user_attribute request = db.insert_user_attribute_schema (record {
    attribute_name = request.name;
    attribute_type = request.attribute_type;
    is_list = request.is_list;
    is_user_visible = request.is_visible;
    is_user_editable = request.is_editable;
    is_hardcoded = false;
  })

  unfoldable pub add_group_attribute : CreateAttributeRequest → Statement S Unit
  add_group_attribute request = db.insert_group_attribute_schema (record {
    attribute_name = request.name;
    attribute_type = request.attribute_type;
    is_list = request.is_list;
    is_group_visible = request.is_visible;
    is_group_editable = request.is_editable;
    is_hardcoded = false;
  })

  unfoldable pub delete_user_attribute : AttributeName → Statement S Unit
  delete_user_attribute name = db.delete_user_attribute_schema name

  unfoldable pub delete_group_attribute : AttributeName → Statement S Unit
  delete_group_attribute name = db.delete_group_attribute_schema name

  unfoldable pub add_user_object_class : LdapObjectClass → Statement S Unit
  add_user_object_class name = db.insert_user_object_class (new_class name)

  unfoldable pub add_group_object_class : LdapObjectClass → Statement S Unit
  add_group_object_class name = db.insert_group_object_class (new_class name)

  unfoldable pub delete_user_object_class : LdapObjectClass → Statement S Unit
  delete_user_object_class name = db.delete_user_object_class (to_ascii_lowercase name)

  unfoldable pub delete_group_object_class : LdapObjectClass → Statement S Unit
  delete_group_object_class name = db.delete_group_object_class (to_ascii_lowercase name)
