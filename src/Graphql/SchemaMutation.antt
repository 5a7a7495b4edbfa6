-- ===== src/Graphql/SchemaMutation.antt =====
-- server/src/infra/graphql/mutation.rs: the mutations of the schema.
use lldap.Common.{Bool, ◌++◌, if◌then◌else◌}
use lldap.Common.Result.{ok_or}
use lldap.Common.Exec.{Exec, pure, raise, lift, ◌>>=◌, ◌>>◌}
use lldap.Text.{Str, codes}
use lldap.Domain.Types.{AttributeName, AttributeType, new_attribute_name}
use lldap.Domain.Handler.{AttributeSchema, get_attribute_schema}
use lldap.Domain.Backend.{Backend}
use lldap.Access.{ValidationResults, get_admin_handler}
use lldap.Graphql.{FieldError, message}
use lldap.Graphql.Attributes.{undefined_attribute}
use lldap.Graphql.Mutation.{Outcome, success, require, call, read_schema}

abbrev cannot_be_deleted : AttributeName → FieldError
cannot_be_deleted name =
    message (codes "Permission denied: Attribute " ++ name ++ codes " cannot be deleted")

module _ {S : Type 0} (backend : Backend S) (v : ValidationResults) where
  unfoldable pub add_user_attribute :
      Str → AttributeType → Bool → Bool → Bool → Exec S FieldError Outcome
  unfolding get_admin_handler
  add_user_attribute name attribute_type is_list is_visible is_editable = do
    handler ← require "Unauthorized attribute creation" (get_admin_handler backend v)
    call (
        handler.add_user_attribute (record {
          name = new_attribute_name name;
          attribute_type = attribute_type;
          is_list = is_list;
          is_visible = is_visible;
          is_editable = is_editable;
        }))
    pure success

  unfoldable pub add_group_attribute :
      Str → AttributeType → Bool → Bool → Bool → Exec S FieldError Outcome
  unfolding get_admin_handler
  add_group_attribute name attribute_type is_list is_visible is_editable = do
    handler ← require "Unauthorized attribute creation" (get_admin_handler backend v)
    call (
        handler.add_group_attribute (record {
          name = new_attribute_name name;
          attribute_type = attribute_type;
          is_list = is_list;
          is_visible = is_visible;
          is_editable = is_editable;
        }))
    pure success

  -- Only an attribute that is not hard-coded goes on to the deletion.
  abbrev unless_hardcoded :
      AttributeName → AttributeSchema → Exec S FieldError Unit → Exec S FieldError Outcome
  unless_hardcoded name schema deletion =
      if schema.is_hardcoded then raise (cannot_be_deleted name) else do deletion; pure success

  unfoldable pub delete_user_attribute : Str → Exec S FieldError Outcome
  unfolding get_admin_handler
  delete_user_attribute name = do
    handler ← require "Unauthorized attribute deletion" (get_admin_handler backend v)
    schema ← read_schema handler
    attribute_schema ← lift (
        ok_or (undefined_attribute (new_attribute_name name))
          (get_attribute_schema schema.schema.user_attributes (new_attribute_name name)))
    unless_hardcoded (new_attribute_name name) attribute_schema
        (call (handler.delete_user_attribute (new_attribute_name name)))

  unfoldable pub delete_group_attribute : Str → Exec S FieldError Outcome
  unfolding get_admin_handler
  delete_group_attribute name = do
    handler ← require "Unauthorized attribute deletion" (get_admin_handler backend v)
    schema ← read_schema handler
    attribute_schema ← lift (
        ok_or (undefined_attribute (new_attribute_name name))
          (get_attribute_schema schema.schema.group_attributes (new_attribute_name name)))
    unless_hardcoded (new_attribute_name name) attribute_schema
        (call (handler.delete_group_attribute (new_attribute_name name)))

  unfoldable pub add_user_object_class : Str → Exec S FieldError Outcome
  unfolding get_admin_handler
  add_user_object_class name = do
    handler ← require "Unauthorized object class addition" (get_admin_handler backend v)
    call (handler.add_user_object_class name)
    pure success

  unfoldable pub add_group_object_class : Str → Exec S FieldError Outcome
  unfolding get_admin_handler
  add_group_object_class name = do
    handler ← require "Unauthorized object class addition" (get_admin_handler backend v)
    call (handler.add_group_object_class name)
    pure success

  unfoldable pub delete_user_object_class : Str → Exec S FieldError Outcome
  unfolding get_admin_handler
  delete_user_object_class name = do
    handler ← require "Unauthorized object class deletion" (get_admin_handler backend v)
    call (handler.delete_user_object_class name)
    pure success

  unfoldable pub delete_group_object_class : Str → Exec S FieldError Outcome
  unfolding get_admin_handler
  delete_group_object_class name = do
    handler ← require "Unauthorized object class deletion" (get_admin_handler backend v)
    call (handler.delete_group_object_class name)
    pure success
