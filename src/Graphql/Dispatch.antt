-- ===== src/Graphql/Dispatch.antt =====
-- server/src/infra/graphql/mutation.rs: the mutations as requests, and sequences of them.
use lldap.Common.{Bool, List, [], ◌∷◌}
use lldap.Common.Exec.{Exec}
use lldap.Text.{Str}
use lldap.Domain.Types.{External, GroupId, AttributeType}
use lldap.Domain.Backend.{Backend}
use lldap.Access.{ValidationResults}
use lldap.Graphql.{FieldError}
use lldap.Graphql.Mutation
use lldap.Graphql.SchemaMutation
use lldap.Graphql.Mutation.{
  CreateUserInput, CreateGroupInput, UpdateUserInput, UpdateGroupInput, Outcome,
}

pub data Request : Type 0 where
  create_user : CreateUserInput → Request
  create_group : Str → Request
  create_group_with_details : CreateGroupInput → Request
  update_user : UpdateUserInput → Request
  update_group : UpdateGroupInput → Request
  add_user_to_group remove_user_from_group : Str → GroupId → Request
  delete_user : Str → Request
  delete_group : GroupId → Request
  add_user_attribute add_group_attribute : Str → AttributeType → Bool → Bool → Bool → Request
  delete_user_attribute delete_group_attribute : Str → Request
  add_user_object_class add_group_object_class : Str → Request
  delete_user_object_class delete_group_object_class : Str → Request

module _ ⦃lib : External⦄ {S : Type 0} (backend : Backend S) where
  -- `Mutation`: the method for each field.
  unfoldable pub mutate : ValidationResults → Request → Exec S FieldError Outcome
  mutate v (Request.create_user user) = Mutation.create_user backend v user
  mutate v (Request.create_group name) = Mutation.create_group backend v name
  mutate v (Request.create_group_with_details r) = Mutation.create_group_with_details backend v r
  mutate v (Request.update_user user) = Mutation.update_user backend v user
  mutate v (Request.update_group group) = Mutation.update_group backend v group
  mutate v (Request.add_user_to_group u g) = Mutation.add_user_to_group backend v u g
  mutate v (Request.remove_user_from_group u g) = Mutation.remove_user_from_group backend v u g
  mutate v (Request.delete_user u) = Mutation.delete_user backend v u
  mutate v (Request.delete_group g) = Mutation.delete_group backend v g
  mutate v (Request.add_user_attribute n t l s e) =
      SchemaMutation.add_user_attribute backend v n t l s e
  mutate v (Request.add_group_attribute n t l s e) =
      SchemaMutation.add_group_attribute backend v n t l s e
  mutate v (Request.delete_user_attribute n) = SchemaMutation.delete_user_attribute backend v n
  mutate v (Request.delete_group_attribute n) = SchemaMutation.delete_group_attribute backend v n
  mutate v (Request.add_user_object_class n) = SchemaMutation.add_user_object_class backend v n
  mutate v (Request.add_group_object_class n) = SchemaMutation.add_group_object_class backend v n
  mutate v (Request.delete_user_object_class n) =
      SchemaMutation.delete_user_object_class backend v n
  mutate v (Request.delete_group_object_class n) =
      SchemaMutation.delete_group_object_class backend v n

  -- The database after some mutations, each with the permissions of its user; a failed one leaves
  -- what it had written.
  unfoldable pub after_all : List (ValidationResults × Request) → S → S
  unfolding mutate
  after_all [] s = s
  after_all ((v, request) ∷ rest) s = after_all rest (mutate v request s).1
