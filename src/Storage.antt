-- ===== src/Storage.antt =====
-- The database of the server: the rows of server/src/domain/model, and the statements that the
-- program runs on them through the crate sea-orm, as one record of operations on a state `S`. The
-- children follow the implementations of the backend traits (server/src/domain/sql_*_handler.rs).
pub mod Schema
pub mod UserRows
pub mod UserChanges
pub mod UserQueries
pub mod Attached
pub mod Listing
pub mod Users
pub mod GroupRows
pub mod GroupQueries
pub mod Groups
pub mod Opaque
pub mod Login
pub mod Updates
pub mod Values
pub mod Passwords
pub mod Registration
pub mod Completion
pub mod Backend
pub mod LdapPasswords
use lldap.Common.{ℕ, Bool, Option, none, some, List, [], ◌++◌}
use lldap.Common.Int.{to_decimal}
use lldap.Common.Exec.{Exec}
use lldap.Text.{Str, Bytes, codes}
use lldap.Domain.Error.{DomainError, DomainResult}
use lldap.Domain.Types.{
  UserId, GroupId, GroupName, AttributeName, AttributeType, AttributeValue, Serialized, Uuid, Email,
  NaiveDateTime, LdapObjectClass, User, Group, GroupDetails,
}
use lldap.Domain.Handler.{AttributeSchema}
use lldap.Domain.Sql.{Cond}

-- `sea_orm::ActiveValue`: a column that a statement sets, or leaves alone.
pub data ActiveValue (A : Type 0) : Type 0 where
  set : A → ActiveValue A
  not_set : ActiveValue A

-- `Option::map(ActiveValue::Set).unwrap_or_default()`
abbrev pub set_some : {A : Type 0} → Option A → ActiveValue A
set_some none = not_set
set_some (some a) = set a

-- A row of the table `users`, and what a statement sets of it.
pub record UserRow : Type 0 where
  pub user_id : UserId
  pub email : Email
  pub lowercase_email : Str
  pub display_name : Option Str
  pub creation_date : NaiveDateTime
  pub password_hash : Option Bytes
  pub totp_secret : Option Str
  pub mfa_type : Option Str
  pub uuid : Uuid

pub record UserActiveModel : Type 0 where
  pub user_id : ActiveValue UserId
  pub email : ActiveValue Email
  pub lowercase_email : ActiveValue Str
  pub display_name : ActiveValue (Option Str)
  pub creation_date : ActiveValue NaiveDateTime
  pub password_hash : ActiveValue (Option Bytes)
  pub totp_secret : ActiveValue (Option Str)
  pub mfa_type : ActiveValue (Option Str)
  pub uuid : ActiveValue Uuid

-- `From<Model> for User`
abbrev pub user_of_row : UserRow → User
user_of_row row = record {
  user_id = row.user_id;
  email = row.email;
  display_name = row.display_name;
  creation_date = row.creation_date;
  uuid = row.uuid;
  attributes = [];
}

-- A row of the table `groups`.
pub record GroupRow : Type 0 where
  pub group_id : GroupId
  pub display_name : GroupName
  pub lowercase_display_name : Str
  pub creation_date : NaiveDateTime
  pub uuid : Uuid

pub record GroupActiveModel : Type 0 where
  pub group_id : ActiveValue GroupId
  pub display_name : ActiveValue GroupName
  pub lowercase_display_name : ActiveValue Str
  pub creation_date : ActiveValue NaiveDateTime
  pub uuid : ActiveValue Uuid

abbrev pub group_of_row : GroupRow → Group
group_of_row row = record {
  id = row.group_id;
  display_name = row.display_name;
  creation_date = row.creation_date;
  uuid = row.uuid;
  users = [];
  attributes = [];
}

abbrev pub details_of_row : GroupRow → GroupDetails
details_of_row row = record {
  group_id = row.group_id;
  display_name = row.display_name;
  creation_date = row.creation_date;
  uuid = row.uuid;
  attributes = [];
}

-- A row of `user_attributes`, and of `group_attributes`.
pub record UserAttributeRow : Type 0 where
  pub user_id : UserId
  pub attribute_name : AttributeName
  pub value : Serialized

pub record GroupAttributeRow : Type 0 where
  pub group_id : GroupId
  pub attribute_name : AttributeName
  pub value : Serialized

abbrev pub value_of_user_row : UserAttributeRow → AttributeValue
value_of_user_row row = record { name = row.attribute_name; value = row.value }

abbrev pub value_of_group_row : GroupAttributeRow → AttributeValue
value_of_group_row row = record { name = row.attribute_name; value = row.value }

-- A row of `user_attribute_schema`, and of `group_attribute_schema`.
pub record UserAttributeSchemaRow : Type 0 where
  pub attribute_name : AttributeName
  pub attribute_type : AttributeType
  pub is_list : Bool
  pub is_user_visible : Bool
  pub is_user_editable : Bool
  pub is_hardcoded : Bool

pub record GroupAttributeSchemaRow : Type 0 where
  pub attribute_name : AttributeName
  pub attribute_type : AttributeType
  pub is_list : Bool
  pub is_group_visible : Bool
  pub is_group_editable : Bool
  pub is_hardcoded : Bool

abbrev pub schema_of_user_row : UserAttributeSchemaRow → AttributeSchema
schema_of_user_row row = record {
  name = row.attribute_name;
  attribute_type = row.attribute_type;
  is_list = row.is_list;
  is_visible = row.is_user_visible;
  is_editable = row.is_user_editable;
  is_hardcoded = row.is_hardcoded;
}

abbrev pub schema_of_group_row : GroupAttributeSchemaRow → AttributeSchema
schema_of_group_row row = record {
  name = row.attribute_name;
  attribute_type = row.attribute_type;
  is_list = row.is_list;
  is_visible = row.is_group_visible;
  is_editable = row.is_group_editable;
  is_hardcoded = row.is_hardcoded;
}

-- A row of `user_object_classes` and of `group_object_classes`.
pub record ObjectClassRow : Type 0 where
  pub lower_object_class : Str
  pub object_class : LdapObjectClass

-- `Debug for GroupId`
abbrev pub debug_group_id : GroupId → Str
debug_group_id id = codes "GroupId(" ++ to_decimal id ++ codes ")"

abbrev pub Query : Type 0 → Type 0 → Type 0
Query S A = S → DomainResult A

abbrev pub Statement : Type 0 → Type 0 → Type 0
Statement S A = Exec S DomainError A

-- The statements. A deletion by key returns `rows_affected`.
pub record Database (S : Type 0) : Type 1 where
  -- commits when the body returns a value, else rolls back
  pub transaction : {A : Type 0} → Statement S A → Statement S A
  pub find_user : UserId → Query S (Option UserRow)
  pub find_users : Cond → Query S (List (UserRow × List GroupRow))
  -- `select_only().column(PasswordHash)` by id
  pub find_password_hash : UserId → Query S (Option (Option Bytes))
  pub insert_user : UserActiveModel → Statement S Unit
  pub update_user : UserActiveModel → Statement S Unit
  pub delete_user : UserId → Statement S ℕ
  -- ordered by user, then by name
  pub find_user_attributes : Cond → Query S (List UserAttributeRow)
  -- of one user, ordered by name
  pub attributes_of_user : UserId → Query S (List UserAttributeRow)
  pub insert_user_attributes : List UserAttributeRow → Statement S Unit
  pub upsert_user_attributes : List UserAttributeRow → Statement S Unit
  pub delete_user_attributes : UserId → List AttributeName → Statement S Unit
  pub groups_of_user : UserRow → Query S (List GroupRow)
  pub insert_membership : UserId → GroupId → Statement S Unit
  pub delete_membership : UserId → GroupId → Statement S ℕ
  pub find_group : GroupId → Query S (Option GroupRow)
  -- ordered by id, with the ids of the members; a condition selects the ids in a subquery
  pub find_groups : Option Cond → Query S (List (GroupRow × List UserId))
  pub insert_group : GroupActiveModel → Statement S GroupId
  pub update_group : GroupActiveModel → Statement S Unit
  pub delete_group : GroupId → Statement S ℕ
  pub find_group_attributes : Option Cond → Query S (List GroupAttributeRow)
  pub attributes_of_group : GroupId → Query S (List GroupAttributeRow)
  pub insert_group_attributes : List GroupAttributeRow → Statement S Unit
  pub upsert_group_attributes : List GroupAttributeRow → Statement S Unit
  pub delete_group_attributes : GroupId → List AttributeName → Statement S Unit
  -- ordered by name
  pub user_attribute_schema : Query S (List UserAttributeSchemaRow)
  pub group_attribute_schema : Query S (List GroupAttributeSchemaRow)
  pub user_object_classes : Query S (List ObjectClassRow)
  pub group_object_classes : Query S (List ObjectClassRow)
  pub insert_user_attribute_schema : UserAttributeSchemaRow → Statement S Unit
  pub insert_group_attribute_schema : GroupAttributeSchemaRow → Statement S Unit
  pub delete_user_attribute_schema : AttributeName → Statement S Unit
  pub delete_group_attribute_schema : AttributeName → Statement S Unit
  pub insert_user_object_class : ObjectClassRow → Statement S Unit
  pub insert_group_object_class : ObjectClassRow → Statement S Unit
  pub delete_user_object_class : Str → Statement S Unit
  pub delete_group_object_class : Str → Statement S Unit
