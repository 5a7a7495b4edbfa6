-- ===== src/Domain/Handler.antt =====
-- server/src/domain/handler.rs: the requests of the backend, and the schema of attributes.
-- A `Vec` of filters inside a filter is its own list type, declared with the filter.
use lldap.Common.{Bool, true, false, Option, none, some, List, [], ◌∷◌, ◌++◌, find}
use lldap.Text.{Str, ◌==◌, to_ascii_lowercase}
use lldap.Domain.Types.{
  UserId, GroupId, GroupName, AttributeName, AttributeType, AttributeValue, Serialized, Uuid, Email,
  JpegPhoto, LdapObjectClass,
}

pub record BindRequest : Type 0 where
  pub name : UserId
  pub password : Str

-- `model::users::Column`, as `UserColumn`.
pub data UserColumn : Type 0 where
  user_id email lowercase_email display_name creation_date : UserColumn
  password_hash totp_secret mfa_type uuid : UserColumn

pub record SubStringFilter : Type 0 where
  pub initial : Option Str
  pub any : List Str
  pub final : Option Str

abbrev pub lower_part : Option Str → Str
lower_part none = []
lower_part (some f) = to_ascii_lowercase f

unfoldable pub sql_parts : List Str → Str
sql_parts [] = []
sql_parts (part ∷ parts) = to_ascii_lowercase part ++ b'%' ∷ sql_parts parts

-- The `LIKE` pattern of a substring filter.
unfoldable pub to_sql_filter : SubStringFilter → Str
unfolding sql_parts
to_sql_filter f = lower_part f.initial ++ b'%' ∷ (sql_parts f.any ++ lower_part f.final)

mutual
  pub data UserRequestFilter : Type 0 where
    and : UserRequestFilters → UserRequestFilter
    or : UserRequestFilters → UserRequestFilter
    not : UserRequestFilter → UserRequestFilter
    user_id : UserId → UserRequestFilter
    user_id_sub_string : SubStringFilter → UserRequestFilter
    equality : UserColumn → Str → UserRequestFilter
    attribute_equality : AttributeName → Serialized → UserRequestFilter
    sub_string : UserColumn → SubStringFilter → UserRequestFilter
    member_of : GroupName → UserRequestFilter
    member_of_id : GroupId → UserRequestFilter

  pub data UserRequestFilters : Type 0 where
    nil : UserRequestFilters
    cons : UserRequestFilter → UserRequestFilters → UserRequestFilters

-- `From<bool> for UserRequestFilter`
unfoldable pub user_filter_of_bool : Bool → UserRequestFilter
user_filter_of_bool true = UserRequestFilter.and UserRequestFilters.nil
user_filter_of_bool false = UserRequestFilter.not (UserRequestFilter.and UserRequestFilters.nil)

mutual
  pub data GroupRequestFilter : Type 0 where
    and : GroupRequestFilters → GroupRequestFilter
    or : GroupRequestFilters → GroupRequestFilter
    not : GroupRequestFilter → GroupRequestFilter
    display_name : GroupName → GroupRequestFilter
    display_name_sub_string : SubStringFilter → GroupRequestFilter
    uuid : Uuid → GroupRequestFilter
    group_id : GroupId → GroupRequestFilter
    member : UserId → GroupRequestFilter
    attribute_equality : AttributeName → Serialized → GroupRequestFilter

  pub data GroupRequestFilters : Type 0 where
    nil : GroupRequestFilters
    cons : GroupRequestFilter → GroupRequestFilters → GroupRequestFilters

-- `From<bool> for GroupRequestFilter`
unfoldable pub group_filter_of_bool : Bool → GroupRequestFilter
group_filter_of_bool true = GroupRequestFilter.and GroupRequestFilters.nil
group_filter_of_bool false = GroupRequestFilter.not (GroupRequestFilter.and GroupRequestFilters.nil)

pub record CreateUserRequest : Type 0 where
  pub user_id : UserId
  pub email : Email
  pub display_name : Option Str
  pub first_name : Option Str
  pub last_name : Option Str
  pub avatar : Option JpegPhoto
  pub attributes : List AttributeValue

-- The fields that stay `none` are left alone.
pub record UpdateUserRequest : Type 0 where
  pub user_id : UserId
  pub email : Option Email
  pub display_name : Option Str
  pub first_name : Option Str
  pub last_name : Option Str
  pub avatar : Option JpegPhoto
  pub delete_attributes : List AttributeName
  pub insert_attributes : List AttributeValue

pub record CreateGroupRequest : Type 0 where
  pub display_name : GroupName
  pub attributes : List AttributeValue

pub record UpdateGroupRequest : Type 0 where
  pub group_id : GroupId
  pub display_name : Option GroupName
  pub delete_attributes : List AttributeName
  pub insert_attributes : List AttributeValue

pub record CreateAttributeRequest : Type 0 where
  pub name : AttributeName
  pub attribute_type : AttributeType
  pub is_list : Bool
  pub is_visible : Bool
  pub is_editable : Bool

pub record AttributeSchema : Type 0 where
  pub name : AttributeName
  pub attribute_type : AttributeType
  pub is_list : Bool
  pub is_visible : Bool
  pub is_editable : Bool
  pub is_hardcoded : Bool

pub record AttributeList : Type 0 where
  pub attributes : List AttributeSchema

unfoldable pub get_attribute_schema : AttributeList → AttributeName → Option AttributeSchema
get_attribute_schema l name = find (λ a. a.name == name) l.attributes

unfoldable pub get_attribute_type : AttributeList → AttributeName → Option (AttributeType × Bool)
get_attribute_type l name = elim (get_attribute_schema l name) [
  | none ↦ none
  | some a ↦ some (a.attribute_type, a.is_list)
]

pub record Schema : Type 0 where
  pub user_attributes : AttributeList
  pub group_attributes : AttributeList
  pub extra_user_object_classes : List LdapObjectClass
  pub extra_group_object_classes : List LdapObjectClass
