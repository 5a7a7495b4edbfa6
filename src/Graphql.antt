-- ===== src/Graphql.antt =====
-- The GraphQL interface (server/src/infra/graphql): its errors and the objects that it returns. A
-- resolver of a field that only reads the object is the field; the crate juniper, which chooses the
-- resolvers to run, is not modelled.
pub mod Attributes
pub mod Values
pub mod Route
pub mod Removals
pub mod Mutation
pub mod SchemaMutation
pub mod Filter
pub mod Query
pub mod Dispatch
pub mod Guards
pub mod Memberships
pub mod OwnRights
use lldap.Common.{ℕ, Bool, Option, none, some, List, [], ◌++◌, find}
use lldap.Common.Result.{Result, ok, err, ◌>>=◌, traverse}
use lldap.Text.{Str, codes}
use lldap.Domain.Error.{DomainError}
use lldap.Domain.Deserialize.{DeserializeError}
use lldap.Domain.Types.{AttributeName, GroupId, Uuid, NaiveDateTime, GroupDetails, UserAndGroups}
use lldap.Domain.Types as Domain
use lldap.Domain.Handler.{AttributeList, AttributeSchema, get_attribute_schema}
use lldap.Domain.Schema.{PublicSchema}

-- `juniper::FieldError`: a message of the program, or an error from below.
pub data FieldError : Type 0 where
  message : Str → FieldError
  backend_error : DomainError → FieldError
  deserialize_error : Str → DeserializeError → FieldError

abbrev pub FieldResult : Type 0 → Type 0
FieldResult A = Result FieldError A

pub record AttributeValue : Type 0 where
  pub attribute : Domain.AttributeValue
  pub schema : AttributeSchema

unfoldable pub from_schema : AttributeList → Domain.AttributeValue → FieldResult AttributeValue
from_schema schema a = elim (get_attribute_schema schema a.name) [
  | some s ↦ ok (record { attribute = a; schema = s })
  | none ↦ err (message (codes "Unknown attribute " ++ a.name))
]

pub record Group : Type 0 where
  pub group_id : GroupId
  pub display_name : Str
  pub creation_date : NaiveDateTime
  pub uuid : Uuid
  pub attributes : List AttributeValue
  pub schema : PublicSchema

pub record User : Type 0 where
  pub user : Domain.User
  pub attributes : List AttributeValue
  pub schema : PublicSchema
  pub groups : Option (List Group)

unfoldable pub from_group : PublicSchema → Domain.Group → FieldResult Group
unfolding traverse from_schema
from_group schema group = do
  attributes ← traverse (from_schema schema.schema.group_attributes) group.attributes
  ok (record {
    group_id = group.id;
    display_name = group.display_name;
    creation_date = group.creation_date;
    uuid = group.uuid;
    attributes = attributes;
    schema = schema;
  })

unfoldable pub from_group_details : PublicSchema → GroupDetails → FieldResult Group
unfolding traverse from_schema
from_group_details schema group = do
  attributes ← traverse (from_schema schema.schema.group_attributes) group.attributes
  ok (record {
    group_id = group.group_id;
    display_name = group.display_name;
    creation_date = group.creation_date;
    uuid = group.uuid;
    attributes = attributes;
    schema = schema;
  })

-- `std::mem::take` leaves the user without attributes.
unfoldable pub from_user : PublicSchema → Domain.User → FieldResult User
unfolding traverse from_schema
from_user schema user = do
  attributes ← traverse (from_schema schema.schema.user_attributes) user.attributes
  ok (record {
    user = record user { attributes = [] };
    attributes = attributes;
    schema = schema;
    groups = none;
  })

abbrev optional_groups :
    PublicSchema → Option (List GroupDetails) → FieldResult (Option (List Group))
optional_groups schema none = ok none
optional_groups schema (some groups) = do
  converted ← traverse (from_group_details schema) groups
  ok (some converted)

unfoldable pub from_user_and_groups : PublicSchema → UserAndGroups → FieldResult User
unfolding from_user traverse from_group_details
from_user_and_groups schema u = do
  user ← from_user schema u.user
  groups ← optional_groups schema u.groups
  ok (record user { groups = groups })
