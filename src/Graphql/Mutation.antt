-- ===== src/Graphql/Mutation.antt =====
-- server/src/infra/graphql/mutation.rs: the mutations of users, groups and memberships. The context of
-- a request is the backend and the permissions of its user.
use lldap.Common.{true, ◌&&◌, Option, none, some, String, List, [], map, is_some, if◌then◌else◌}
use lldap.Common.Int.{pos}
use lldap.Common.Result.{ok_or, traverse}
use lldap.Common.Exec.{Exec, pure, raise, lift, ask, on_error, ◌>>=◌, ◌>>◌}
use lldap.Common.Result
use lldap.Text.{Str, codes, ◌==◌}
use lldap.Domain.Error.{DomainError}
use lldap.Domain.Types.{External, GroupId, new_user_id, new_attribute_name}
use lldap.Domain.Schema.{PublicSchema, public_schema}
use lldap.Domain.Backend.{Backend}
use lldap.Access.{ValidationResults, is_admin, get_admin_handler, get_writeable_handler}
use lldap.Storage.GroupRows.{same_group}
use lldap.Graphql.{FieldError, message, backend_error, User, Group, from_user, from_group_details}
use lldap.Graphql.Attributes.{AttributeValueInput, deserialize_attribute, decode_avatar}

pub record CreateUserInput : Type 0 where
  pub id : Str
  pub email : Str
  pub display_name : Option Str
  pub first_name : Option Str
  pub last_name : Option Str
  pub avatar : Option Str
  pub attributes : Option (List AttributeValueInput)

pub record CreateGroupInput : Type 0 where
  pub display_name : Str
  pub attributes : Option (List AttributeValueInput)

pub record UpdateUserInput : Type 0 where
  pub id : Str
  pub email : Option Str
  pub display_name : Option Str
  pub first_name : Option Str
  pub last_name : Option Str
  pub avatar : Option Str
  pub remove_attributes : Option (List Str)
  pub insert_attributes : Option (List AttributeValueInput)

pub record UpdateGroupInput : Type 0 where
  pub id : GroupId
  pub display_name : Option Str
  pub remove_attributes : Option (List Str)
  pub insert_attributes : Option (List AttributeValueInput)

abbrev pub unwrap_or_default : {A : Type 0} → Option (List A) → List A
unwrap_or_default none = []
unwrap_or_default (some xs) = xs

-- What a mutation returns: `Success`, or an object.
pub data Outcome : Type 0 where
  success : Outcome
  user_result : User → Outcome
  group_result : Group → Outcome

module _ {S : Type 0} where
  -- A call of the backend, its error converted by `?`.
  abbrev pub call : {A : Type 0} → Exec S DomainError A → Exec S FieldError A
  call m = on_error backend_error m

  -- `ok_or_else(field_error_callback(..))?`
  abbrev pub require : String → Option (Backend S) → Exec S FieldError (Backend S)
  require text handler = lift (ok_or (message (codes text)) handler)

  -- `get_schema` of the handlers under access control.
  abbrev pub read_schema : Backend S → Exec S FieldError PublicSchema
  read_schema handler = call (ask (λ s. Result.map public_schema (handler.get_schema s)))

module _ ⦃lib : External⦄ {S : Type 0} (backend : Backend S) (v : ValidationResults) where
  unfoldable pub create_user : CreateUserInput → Exec S FieldError Outcome
  unfolding get_admin_handler decode_avatar traverse deserialize_attribute from_user
  create_user user = do
    handler ← require "Unauthorized user creation" (get_admin_handler backend v)
    avatar ← lift (decode_avatar user.avatar)
    schema ← read_schema handler
    attributes ← lift (
        traverse (deserialize_attribute schema.schema.user_attributes true)
          (unwrap_or_default user.attributes))
    call (
        handler.create_user (record {
          user_id = new_user_id user.id;
          email = user.email;
          display_name = user.display_name;
          first_name = user.first_name;
          last_name = user.last_name;
          avatar = avatar;
          attributes = attributes;
        }))
    details ← call (ask (handler.get_user_details (new_user_id user.id)))
    created ← lift (from_user schema details)
    pure (user_result created)

  unfoldable pub create_group_with_details : CreateGroupInput → Exec S FieldError Outcome
  unfolding get_admin_handler traverse deserialize_attribute from_group_details
  create_group_with_details request = do
    handler ← require "Unauthorized group creation" (get_admin_handler backend v)
    schema ← read_schema handler
    attributes ← lift (
        traverse (deserialize_attribute schema.schema.group_attributes true)
          (unwrap_or_default request.attributes))
    group_id ← call (
        handler.create_group
          (record { display_name = request.display_name; attributes = attributes }))
    details ← call (ask (handler.get_group_details group_id))
    created ← lift (from_group_details schema details)
    pure (group_result created)

  unfoldable pub create_group : Str → Exec S FieldError Outcome
  unfolding create_group_with_details
  create_group name =
      create_group_with_details (record { display_name = name; attributes = some [] })

  unfoldable pub update_user : UpdateUserInput → Exec S FieldError Outcome
  unfolding get_writeable_handler is_admin decode_avatar traverse deserialize_attribute
  update_user user = do
    handler ←
        require "Unauthorized user update" (get_writeable_handler backend v (new_user_id user.id))
    avatar ← lift (decode_avatar user.avatar)
    schema ← read_schema handler
    insert_attributes ← lift (
        traverse (deserialize_attribute schema.schema.user_attributes (is_admin v))
          (unwrap_or_default user.insert_attributes))
    call (
        handler.update_user (record {
          user_id = new_user_id user.id;
          email = user.email;
          display_name = user.display_name;
          first_name = user.first_name;
          last_name = user.last_name;
          avatar = avatar;
          delete_attributes = map new_attribute_name (unwrap_or_default user.remove_attributes);
          insert_attributes = insert_attributes;
        }))
    pure success

  -- What `update_group` does after its check.
  abbrev update_group_as : Backend S → UpdateGroupInput → Exec S FieldError Outcome
  update_group_as handler group = do
    schema ← read_schema handler
    insert_attributes ← lift (
        traverse (deserialize_attribute schema.schema.group_attributes true)
          (unwrap_or_default group.insert_attributes))
    call (
        handler.update_group (record {
          group_id = group.id;
          display_name = group.display_name;
          delete_attributes = map new_attribute_name (unwrap_or_default group.remove_attributes);
          insert_attributes = insert_attributes;
        }))
    pure success

  unfoldable pub update_group : UpdateGroupInput → Exec S FieldError Outcome
  unfolding get_admin_handler same_group traverse deserialize_attribute
  update_group group = do
    handler ← require "Unauthorized group update" (get_admin_handler backend v)
    if same_group group.id (pos 1) && is_some group.display_name
        then raise (message (codes "Cannot change lldap_admin group name"))
        else update_group_as handler group

  unfoldable pub add_user_to_group : Str → GroupId → Exec S FieldError Outcome
  unfolding get_admin_handler
  add_user_to_group user_id group_id = do
    handler ← require "Unauthorized group membership modification" (get_admin_handler backend v)
    call (handler.add_user_to_group (new_user_id user_id) group_id)
    pure success

  unfoldable pub remove_user_from_group : Str → GroupId → Exec S FieldError Outcome
  unfolding get_admin_handler same_group
  remove_user_from_group user_id group_id = do
    handler ← require "Unauthorized group membership modification" (get_admin_handler backend v)
    if (v.user == new_user_id user_id) && same_group group_id (pos 1)
        then raise (message (codes "Cannot remove admin rights for current user"))
        else do call (handler.remove_user_from_group (new_user_id user_id) group_id); pure success

  unfoldable pub delete_user : Str → Exec S FieldError Outcome
  unfolding get_admin_handler
  delete_user user_id = do
    handler ← require "Unauthorized user deletion" (get_admin_handler backend v)
    if v.user == new_user_id user_id
        then raise (message (codes "Cannot delete current user"))
        else do call (handler.delete_user (new_user_id user_id)); pure success

  unfoldable pub delete_group : GroupId → Exec S FieldError Outcome
  unfolding get_admin_handler same_group
  delete_group group_id = do
    handler ← require "Unauthorized group deletion" (get_admin_handler backend v)
    if same_group group_id (pos 1)
        then raise (message (codes "Cannot delete admin group"))
        else do call (handler.delete_group group_id); pure success
