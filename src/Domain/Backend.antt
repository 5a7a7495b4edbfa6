-- ===== src/Domain/Backend.antt =====
-- The backend traits of server/src/domain/handler.rs and opaque_handler.rs, as one record of
-- operations on a state `S`, the database. A query reads the state and a command returns the next.
use lldap.Common.{Bool, Option, List}
use lldap.Text.{Bytes}
use lldap.Domain.Error.{DomainResult}
use lldap.Domain.Types.{
  UserId, GroupId, AttributeName, LdapObjectClass, User, Group, GroupDetails, UserAndGroups,
}
use lldap.Domain.Handler.{
  BindRequest, UserRequestFilter, GroupRequestFilter, CreateUserRequest, UpdateUserRequest,
  CreateGroupRequest, UpdateGroupRequest, CreateAttributeRequest, Schema,
}

-- `registration::ServerRegistrationStartResponse`
pub record RegistrationStartResponse : Type 0 where
  pub server_data : Bytes
  pub registration_response : Bytes

pub record Backend (S : Type 0) : Type 0 where
  pub get_schema : S → DomainResult Schema
  pub list_users : Option UserRequestFilter → Bool → S → DomainResult (List UserAndGroups)
  pub list_groups : Option GroupRequestFilter → S → DomainResult (List Group)
  -- a `HashSet`, in some order
  pub get_user_groups : UserId → S → DomainResult (List GroupDetails)
  pub create_user : CreateUserRequest → S → DomainResult Unit × S
  pub bind : BindRequest → S → DomainResult Unit
  pub registration_start : UserId → Bytes → S → DomainResult RegistrationStartResponse
  pub registration_finish : Bytes → Bytes → S → DomainResult Unit × S
  pub get_user_details : UserId → S → DomainResult User
  pub update_user : UpdateUserRequest → S → DomainResult Unit × S
  pub delete_user : UserId → S → DomainResult Unit × S
  pub add_user_to_group : UserId → GroupId → S → DomainResult Unit × S
  pub remove_user_from_group : UserId → GroupId → S → DomainResult Unit × S
  pub get_group_details : GroupId → S → DomainResult GroupDetails
  pub update_group : UpdateGroupRequest → S → DomainResult Unit × S
  pub create_group : CreateGroupRequest → S → DomainResult GroupId × S
  pub delete_group : GroupId → S → DomainResult Unit × S
  pub add_user_attribute : CreateAttributeRequest → S → DomainResult Unit × S
  pub add_group_attribute : CreateAttributeRequest → S → DomainResult Unit × S
  pub delete_user_attribute : AttributeName → S → DomainResult Unit × S
  pub delete_group_attribute : AttributeName → S → DomainResult Unit × S
  pub add_user_object_class : LdapObjectClass → S → DomainResult Unit × S
  pub add_group_object_class : LdapObjectClass → S → DomainResult Unit × S
  pub delete_user_object_class : LdapObjectClass → S → DomainResult Unit × S
  pub delete_group_object_class : LdapObjectClass → S → DomainResult Unit × S
