-- ===== src/Graphql/Memberships.antt =====
-- What the mutations rely on for the memberships of the backend, and the shape of most of them: one
-- call of the backend, behind a test (server/src/infra/graphql/mutation.rs).
use lldap.Common.{◌≡◌, refl, Bool, true, false, ◌&&◌, if◌then◌else◌}
use lldap.Common.Result.{map_err}
use lldap.Common.Exec.{Exec, ◌>>◌, Keeps, continue-state, pure, raise}
use lldap.Text.{◌==◌}
use lldap.Domain.Error.{DomainError}
use lldap.Domain.Types.{UserId, GroupId, AttributeName, LdapObjectClass}
use lldap.Domain.Handler.{
  CreateUserRequest, UpdateUserRequest, CreateGroupRequest, UpdateGroupRequest,
  CreateAttributeRequest,
}
use lldap.Domain.Backend.{Backend}
use lldap.Storage.GroupRows.{same_group}
use lldap.Graphql.{FieldError, backend_error}
use lldap.Graphql.Mutation
use lldap.Graphql.Mutation.{call, unwrap_or_default}

-- What the backend does to the memberships: only three operations end one, and each says which.
pub record MembershipLaws {S : Type 0} (backend : Backend S) : Type 1 where
  pub Member : UserId → GroupId → S → Type 0
  pub create_user :
      (u : UserId) (g : GroupId) (r : CreateUserRequest)
      → Keeps (Member u g) (backend.create_user r)
  pub update_user :
      (u : UserId) (g : GroupId) (r : UpdateUserRequest)
      → Keeps (Member u g) (backend.update_user r)
  pub delete_user :
      (u : UserId) (g : GroupId) (other : UserId)
      → (u == other) ≡ false
      → Keeps (Member u g) (backend.delete_user other)
  pub add_user_to_group :
      (u : UserId) (g : GroupId) (v : UserId) (h : GroupId)
      → Keeps (Member u g) (backend.add_user_to_group v h)
  pub remove_user_from_group :
      (u : UserId) (g : GroupId) (v : UserId) (h : GroupId)
      → ((u == v) && same_group h g) ≡ false
      → Keeps (Member u g) (backend.remove_user_from_group v h)
  pub update_group :
      (u : UserId) (g : GroupId) (r : UpdateGroupRequest)
      → Keeps (Member u g) (backend.update_group r)
  pub create_group :
      (u : UserId) (g : GroupId) (r : CreateGroupRequest)
      → Keeps (Member u g) (backend.create_group r)
  pub delete_group :
      (u : UserId) (g : GroupId) (h : GroupId)
      → same_group h g ≡ false
      → Keeps (Member u g) (backend.delete_group h)
  pub add_user_attribute :
      (u : UserId) (g : GroupId) (r : CreateAttributeRequest)
      → Keeps (Member u g) (backend.add_user_attribute r)
  pub add_group_attribute :
      (u : UserId) (g : GroupId) (r : CreateAttributeRequest)
      → Keeps (Member u g) (backend.add_group_attribute r)
  pub delete_user_attribute :
      (u : UserId) (g : GroupId) (n : AttributeName)
      → Keeps (Member u g) (backend.delete_user_attribute n)
  pub delete_group_attribute :
      (u : UserId) (g : GroupId) (n : AttributeName)
      → Keeps (Member u g) (backend.delete_group_attribute n)
  pub add_user_object_class :
      (u : UserId) (g : GroupId) (n : LdapObjectClass)
      → Keeps (Member u g) (backend.add_user_object_class n)
  pub add_group_object_class :
      (u : UserId) (g : GroupId) (n : LdapObjectClass)
      → Keeps (Member u g) (backend.add_group_object_class n)
  pub delete_user_object_class :
      (u : UserId) (g : GroupId) (n : LdapObjectClass)
      → Keeps (Member u g) (backend.delete_user_object_class n)
  pub delete_group_object_class :
      (u : UserId) (g : GroupId) (n : LdapObjectClass)
      → Keeps (Member u g) (backend.delete_group_object_class n)

module _ {S : Type 0} (P : S → Type 0) where
  -- A mutation that ends with one call of the backend.
  pub called :
      (m : Exec S DomainError Unit) (s : S) → P (m s).1 → P ((call m >> pure Mutation.success) s).1
  called m s p = continue-state P (map_err backend_error (m s).0) _ _ p λ _ _. p

  -- A choice between an error and a mutation that ends so, the call made where the test fails.
  pub called_unless :
      (b : Bool) (e : FieldError) (m : Exec S DomainError Unit) (s : S)
      → P s
      → (b ≡ false → P (m s).1)
      → P ((if b then raise e else call m >> pure Mutation.success) s).1
  called_unless true e m s p k = p
  called_unless false e m s p k = called m s (k refl)
