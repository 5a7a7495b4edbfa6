-- ===== src/Graphql/OwnRights.antt =====
-- That an administrator keeps its own rights through its own mutations
-- (server/src/infra/graphql/mutation.rs).
use lldap.Common.{◌≡◌, inl, inr, true, ◌&&◌, Option, some, List, [], ◌∷◌, map, Bool-cases, is_some}
use lldap.Common.Int.{pos}
use lldap.Common.Result.{Result, ok_or, map_err, traverse}
use lldap.Common.Result
use lldap.Common.Exec.{Exec, Keeps, continue-state}
use lldap.Text.{Str, ◌==◌}
use lldap.Domain.Error.{DomainError}
use lldap.Domain.Types.{
  External, JpegPhoto, AttributeValue, GroupId, new_user_id, new_attribute_name,
}
use lldap.Domain.Handler.{get_attribute_schema, CreateUserRequest, UpdateGroupRequest}
use lldap.Domain.Schema.{PublicSchema, public_schema}
use lldap.Domain.Backend.{Backend}
use lldap.Access.{ValidationResults, is_admin, can_write, get_admin_handler, get_writeable_handler}
use lldap.Storage.GroupRows.{same_group}
use lldap.Graphql.{FieldError, backend_error, from_user, from_group_details}
use lldap.Graphql.Attributes.{deserialize_attribute, decode_avatar, undefined_attribute}
use lldap.Graphql.Guards.{sent, mutate-OwnUpdate}
use lldap.Graphql.Mutation
use lldap.Graphql.SchemaMutation
use lldap.Graphql.Mutation.{call, unwrap_or_default}
use lldap.Graphql.Dispatch.{Request, mutate, after_all}
use lldap.Graphql.Memberships.{MembershipLaws, called, called_unless}

module _ ⦃lib : External⦄ {S : Type 0} (backend : Backend S) (laws : MembershipLaws backend)
    (v : ValidationResults) (admin : is_admin v ≡ true) where
  -- The user is in the group of administrators, the first group.
  abbrev HasAdmin : S → Type 0
  HasAdmin = laws.Member v.user (pos 1)

  abbrev read_public : S → Result FieldError PublicSchema
  read_public s = map_err backend_error (Result.map public_schema (backend.get_schema s))

  abbrev user_request :
      Mutation.CreateUserInput → Option JpegPhoto → List AttributeValue → CreateUserRequest
  user_request r avatar attributes = record {
    user_id = new_user_id r.id;
    email = r.email;
    display_name = r.display_name;
    first_name = r.first_name;
    last_name = r.last_name;
    avatar = avatar;
    attributes = attributes;
  }

  abbrev group_request : Mutation.UpdateGroupInput → List AttributeValue → UpdateGroupRequest
  group_request r attributes = record {
    group_id = r.id;
    display_name = r.display_name;
    delete_attributes = map new_attribute_name (unwrap_or_default r.remove_attributes);
    insert_attributes = attributes;
  }

  create_user-keeps :
      (r : Mutation.CreateUserInput) → Keeps HasAdmin (Mutation.create_user backend v r)
  unfolding Mutation.create_user get_admin_handler
  create_user-keeps r s p = rw admin (
      continue-state HasAdmin (decode_avatar r.avatar) _ s p λ avatar _.
        continue-state HasAdmin (read_public s) _ s p λ schema _.
          continue-state HasAdmin
            (traverse (deserialize_attribute schema.schema.user_attributes true)
              (unwrap_or_default r.attributes))
            _ s p
            λ attributes _.
              let m : Exec S DomainError Unit =
                backend.create_user (user_request r avatar attributes) in
              let q : HasAdmin (m s).1 = laws.create_user v.user (pos 1) _ s p in
              continue-state HasAdmin (map_err backend_error (m s).0) _ _ q λ _ _.
                continue-state HasAdmin
                  (map_err backend_error (backend.get_user_details (new_user_id r.id) (m s).1)) _ _
                  q λ details _. continue-state HasAdmin (from_user schema details) _ _ q λ _ _. q)

  create_group-keeps :
      (r : Mutation.CreateGroupInput)
      → Keeps HasAdmin (Mutation.create_group_with_details backend v r)
  unfolding Mutation.create_group_with_details get_admin_handler
  create_group-keeps r s p = rw admin (
      continue-state HasAdmin (read_public s) _ s p λ schema _.
        continue-state HasAdmin
          (traverse (deserialize_attribute schema.schema.group_attributes true)
            (unwrap_or_default r.attributes))
          _ s p
          λ attributes _.
            let m : Exec S DomainError GroupId =
              backend.create_group
                (record { display_name = r.display_name; attributes = attributes }) in
            let q : HasAdmin (m s).1 = laws.create_group v.user (pos 1) _ s p in
            continue-state HasAdmin (map_err backend_error (m s).0) _ _ q λ id _.
              continue-state HasAdmin (map_err backend_error (backend.get_group_details id (m s).1))
                _ _ q
                λ details _.
                  continue-state HasAdmin (from_group_details schema details) _ _ q λ _ _. q)

  delete_group-keeps : (g : GroupId) → Keeps HasAdmin (Mutation.delete_group backend v g)
  unfolding Mutation.delete_group get_admin_handler
  delete_group-keeps g s p = rw admin (
      called_unless HasAdmin (same_group g (pos 1)) _ (backend.delete_group g) s p
        λ other. laws.delete_group v.user (pos 1) g other s p)

  delete_user-keeps : (u : Str) → Keeps HasAdmin (Mutation.delete_user backend v u)
  unfolding Mutation.delete_user get_admin_handler
  delete_user-keeps u s p = rw admin (
      called_unless HasAdmin (v.user == new_user_id u) _ (backend.delete_user (new_user_id u)) s p
        λ other. laws.delete_user v.user (pos 1) _ other s p)

  remove_user_from_group-keeps :
      (u : Str) (g : GroupId) → Keeps HasAdmin (Mutation.remove_user_from_group backend v u g)
  unfolding Mutation.remove_user_from_group get_admin_handler
  remove_user_from_group-keeps u g s p = rw admin (
      called_unless HasAdmin ((v.user == new_user_id u) && same_group g (pos 1)) _
        (backend.remove_user_from_group (new_user_id u) g) s p
        λ other. laws.remove_user_from_group v.user (pos 1) _ g other s p)

  update_group-keeps :
      (r : Mutation.UpdateGroupInput) → Keeps HasAdmin (Mutation.update_group backend v r)
  unfolding Mutation.update_group get_admin_handler
  update_group-keeps r s p =
      rw admin (elim (Bool-cases (same_group r.id (pos 1) && is_some r.display_name)) [
        | inl renames ↦ rw renames p
        | inr other ↦ rw other (
            continue-state HasAdmin (read_public s) _ s p λ schema _.
              continue-state HasAdmin
                (traverse (deserialize_attribute schema.schema.group_attributes true)
                  (unwrap_or_default r.insert_attributes))
                _ s p
                λ attributes _.
                  called HasAdmin (backend.update_group (group_request r attributes)) s
                    (laws.update_group v.user (pos 1) _ s p))
      ])

  update_user-keeps :
      (r : Mutation.UpdateUserInput) → Keeps HasAdmin (Mutation.update_user backend v r)
  unfolding Mutation.update_user get_writeable_handler can_write is_admin
  update_user-keeps r s p = rw admin (
      continue-state HasAdmin (decode_avatar r.avatar) _ s p λ avatar _.
        continue-state HasAdmin (read_public s) _ s p λ schema _.
          continue-state HasAdmin
            (traverse (deserialize_attribute schema.schema.user_attributes true)
              (unwrap_or_default r.insert_attributes))
            _ s p
            λ attributes _.
              called HasAdmin (backend.update_user (sent backend v r avatar attributes)) s
                (laws.update_user v.user (pos 1) _ s p))

  delete_user_attribute-keeps :
      (n : Str) → Keeps HasAdmin (SchemaMutation.delete_user_attribute backend v n)
  unfolding SchemaMutation.delete_user_attribute get_admin_handler
  delete_user_attribute-keeps n s p = rw admin (
      continue-state HasAdmin (read_public s) _ s p λ schema _.
        continue-state HasAdmin
          (ok_or (undefined_attribute (new_attribute_name n))
            (get_attribute_schema schema.schema.user_attributes (new_attribute_name n)))
          _ s p
          λ found _.
            called_unless HasAdmin found.is_hardcoded _
              (backend.delete_user_attribute (new_attribute_name n)) s p
              λ _. laws.delete_user_attribute v.user (pos 1) _ s p)

  delete_group_attribute-keeps :
      (n : Str) → Keeps HasAdmin (SchemaMutation.delete_group_attribute backend v n)
  unfolding SchemaMutation.delete_group_attribute get_admin_handler
  delete_group_attribute-keeps n s p = rw admin (
      continue-state HasAdmin (read_public s) _ s p λ schema _.
        continue-state HasAdmin
          (ok_or (undefined_attribute (new_attribute_name n))
            (get_attribute_schema schema.schema.group_attributes (new_attribute_name n)))
          _ s p
          λ found _.
            called_unless HasAdmin found.is_hardcoded _
              (backend.delete_group_attribute (new_attribute_name n)) s p
              λ _. laws.delete_group_attribute v.user (pos 1) _ s p)

  admin-keeps : (request : Request) → Keeps HasAdmin (mutate backend v request)
  unfolding mutate get_admin_handler Mutation.create_group Mutation.add_user_to_group
      SchemaMutation.add_user_attribute SchemaMutation.add_group_attribute
      SchemaMutation.add_user_object_class SchemaMutation.add_group_object_class
      SchemaMutation.delete_user_object_class SchemaMutation.delete_group_object_class
  admin-keeps (Request.create_user r) s p = create_user-keeps r s p
  admin-keeps (Request.create_group n) s p =
      create_group-keeps (record { display_name = n; attributes = some [] }) s p
  admin-keeps (Request.create_group_with_details r) s p = create_group-keeps r s p
  admin-keeps (Request.update_user r) s p = update_user-keeps r s p
  admin-keeps (Request.update_group r) s p = update_group-keeps r s p
  admin-keeps (Request.add_user_to_group u g) s p = rw admin (
      called HasAdmin (backend.add_user_to_group (new_user_id u) g) s
        (laws.add_user_to_group v.user (pos 1) _ _ s p))
  admin-keeps (Request.remove_user_from_group u g) s p = remove_user_from_group-keeps u g s p
  admin-keeps (Request.delete_user u) s p = delete_user-keeps u s p
  admin-keeps (Request.delete_group g) s p = delete_group-keeps g s p
  admin-keeps (Request.add_user_attribute n t l c e) s p = rw admin (
      called HasAdmin (backend.add_user_attribute _) s
        (laws.add_user_attribute v.user (pos 1) _ s p))
  admin-keeps (Request.add_group_attribute n t l c e) s p = rw admin (
      called HasAdmin (backend.add_group_attribute _) s
        (laws.add_group_attribute v.user (pos 1) _ s p))
  admin-keeps (Request.delete_user_attribute n) s p = delete_user_attribute-keeps n s p
  admin-keeps (Request.delete_group_attribute n) s p = delete_group_attribute-keeps n s p
  admin-keeps (Request.add_user_object_class n) s p = rw admin (
      called HasAdmin (backend.add_user_object_class n) s
        (laws.add_user_object_class v.user (pos 1) n s p))
  admin-keeps (Request.add_group_object_class n) s p = rw admin (
      called HasAdmin (backend.add_group_object_class n) s
        (laws.add_group_object_class v.user (pos 1) n s p))
  admin-keeps (Request.delete_user_object_class n) s p = rw admin (
      called HasAdmin (backend.delete_user_object_class n) s
        (laws.delete_user_object_class v.user (pos 1) n s p))
  admin-keeps (Request.delete_group_object_class n) s p = rw admin (
      called HasAdmin (backend.delete_group_object_class n) s
        (laws.delete_group_object_class v.user (pos 1) n s p))

module _ ⦃lib : External⦄ {S : Type 0} (backend : Backend S) (laws : MembershipLaws backend) where
  mutate-keeps_own_admin :
      (v : ValidationResults) (request : Request)
      → Keeps (laws.Member v.user (pos 1)) (mutate backend v request)
  mutate-keeps_own_admin v request s p = elim (Bool-cases (is_admin v)) [
    | inl admin ↦ admin-keeps backend laws v admin request s p
    | inr other ↦ elim (mutate-OwnUpdate backend v request s other) [
      | inl same ↦ rw same p
      | inr own ↦ rw own.state (laws.update_user v.user (pos 1) own.request s p)
    ]
  ]

  -- Over a backend in which only three operations end a membership, a member of the group of
  -- administrators is still one after any sequence of its own mutations, whatever permission it has.
  pub after_all-keeps_own_admin :
      (v : ValidationResults) (requests : List Request) (s : S)
      → laws.Member v.user (pos 1) s
      → laws.Member v.user (pos 1) (after_all backend (map (λ r. (v, r)) requests) s)
  unfolding after_all
  after_all-keeps_own_admin v [] s p = p
  after_all-keeps_own_admin v (r ∷ rs) s p =
      after_all-keeps_own_admin v rs _ (mutate-keeps_own_admin v r s p)
