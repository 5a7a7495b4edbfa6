-- ===== src/Graphql/Guards.antt =====
-- Who may change what through the GraphQL mutations (server/src/infra/graphql/mutation.rs).
use lldap.Common.{
  ◌≡◌, refl, sym, ◌⊎◌, inl, inr, true, false, Option, some, List, [], ◌∷◌, map, All, Bool-cases,
}
use lldap.Common.Result.{
  Result, ok, err, panic, ◌>>=◌, ok_or, ok_or-eq-ok, traverse, map_err, OnOk, OnOk-bind,
  OnOk-bind_with, OnOk-elim, OnOk-returns,
}
use lldap.Common.Exec.{continue-state}
use lldap.Common.Result
use lldap.Text.Laws.{==_sound}
use lldap.Domain.Deserialize.{deserialize_attribute_value}
use lldap.Domain.Error.{DomainResult}
use lldap.Domain.Types.{
  External, JpegPhoto, UserId, AttributeValue, new_user_id, new_attribute_name,
}
use lldap.Domain.Handler.{
  AttributeList, AttributeSchema, Schema, UpdateUserRequest, get_attribute_schema,
}
use lldap.Domain.Schema.{PublicSchema, public_schema}
use lldap.Domain.Backend.{Backend}
use lldap.Access.{ValidationResults, is_admin, can_write, get_admin_handler, get_writeable_handler}
use lldap.Graphql.{backend_error, deserialize_error}
use lldap.Graphql.Attributes.{
  AttributeValueInput, deserialize_attribute, deserialize_known, decode_avatar, undefined_attribute,
}
use lldap.Graphql.Mutation
use lldap.Graphql.SchemaMutation
use lldap.Graphql.Mutation.{UpdateUserInput, unwrap_or_default}
use lldap.Graphql.Dispatch.{Request, mutate}

-- The attribute is in the schema, and the users may edit it.
abbrev pub Editable : AttributeList → AttributeValue → Type 0
Editable schema a =
    (s : AttributeSchema) × (get_attribute_schema schema a.name ≡ some s) × (s.is_editable ≡ true)

module _ ⦃lib : External⦄ where
  deserialize_known-Editable :
      (list : AttributeList) (a : AttributeValueInput) (s : AttributeSchema)
      → get_attribute_schema list (new_attribute_name a.name) ≡ some s
      → OnOk (Editable list) (deserialize_known a false s)
  unfolding deserialize_known
  deserialize_known-Editable list a s e = elim (Bool-cases s.is_editable) [
    | inl editable ↦
        (rw editable (
          OnOk-bind (Editable list)
            (map_err (deserialize_error a.name)
              (deserialize_attribute_value a.value s.attribute_type s.is_list))
            _ λ value. (s, e, editable)))
    | inr fixed ↦ rw fixed tt
  ]

  -- A value that a user without privileges may insert belongs to an editable attribute.
  pub deserialize_attribute-Editable :
      (list : AttributeList) (a : AttributeValueInput)
      → OnOk (Editable list) (deserialize_attribute list false a)
  unfolding deserialize_attribute
  deserialize_attribute-Editable list a =
      OnOk-bind_with
        (λ s.
          ok_or (undefined_attribute a.name) (get_attribute_schema list (new_attribute_name a.name))
          ≡ ok s)
        (Editable list)
        (ok_or (undefined_attribute a.name) (get_attribute_schema list (new_attribute_name a.name)))
        _ (OnOk-returns _) λ s e. deserialize_known-Editable list a s (ok_or-eq-ok _ _ e)

  inserted-Editable :
      (list : AttributeList) (xs : List AttributeValueInput)
      → OnOk (All (Editable list)) (traverse (deserialize_attribute list false) xs)
  unfolding traverse
  inserted-Editable list [] = tt
  inserted-Editable list (x ∷ xs) =
      OnOk-bind_with (Editable list) (All (Editable list)) (deserialize_attribute list false x) _
        (deserialize_attribute-Editable list x)
        λ y p.
          OnOk-bind_with (All (Editable list)) (All (Editable list))
            (traverse (deserialize_attribute list false) xs) _ (inserted-Editable list xs)
            λ ys ps. (p, ps)

  -- An update by the backend of the user itself, with values of editable attributes only.
  pub record OwnUpdate {S : Type 0} (backend : Backend S) (v : ValidationResults) (s t : S)
      : Type 0 where
    pub request : UpdateUserRequest
    pub own : request.user_id ≡ v.user
    pub schema : Schema
    pub read : backend.get_schema s ≡ ok schema
    pub editable :
        All (Editable (public_schema schema).schema.user_attributes) request.insert_attributes
    pub state : t ≡ (backend.update_user request s).1

  own_of_write :
      (v : ValidationResults) (u : UserId) → is_admin v ≡ false → can_write v u ≡ true → u ≡ v.user
  unfolding is_admin can_write
  own_of_write v u a w = sym (==_sound v.user u (rw a at w))

  read_public :
      (r : DomainResult Schema) (p : PublicSchema)
      → map_err backend_error (Result.map public_schema r) ≡ ok p
      → (s : Schema) × (r ≡ ok s) × (public_schema s ≡ p)
  read_public (ok s) p e = (s, refl, cc)
  read_public (err c) p e = cc
  read_public panic p e = cc

  module _ {S : Type 0} (backend : Backend S) (v : ValidationResults) (user : UpdateUserInput) where
    -- The request that reaches the backend.
    abbrev pub sent : Option JpegPhoto → List AttributeValue → UpdateUserRequest
    sent avatar inserted = record {
      user_id = new_user_id user.id;
      email = user.email;
      display_name = user.display_name;
      first_name = user.first_name;
      last_name = user.last_name;
      avatar = avatar;
      delete_attributes = map new_attribute_name (unwrap_or_default user.remove_attributes);
      insert_attributes = inserted;
    }

    own_update :
        (s : S) (avatar : Option JpegPhoto) (schema : PublicSchema) (inserted : List AttributeValue)
        → is_admin v ≡ false
        → can_write v (new_user_id user.id) ≡ true
        → map_err backend_error (Result.map public_schema (backend.get_schema s)) ≡ ok schema
        → traverse
            (deserialize_attribute schema.schema.user_attributes false)
            (unwrap_or_default user.insert_attributes)
          ≡ ok inserted
        → OwnUpdate backend v s (backend.update_user (sent avatar inserted) s).1
    own_update s avatar schema inserted a allowed e k =
        let (plain, read, same) = read_public (backend.get_schema s) schema e in
        record {
          request = sent avatar inserted;
          own = own_of_write v (new_user_id user.id) a allowed;
          schema = plain;
          read = read;
          editable = rw same (
              OnOk-elim (All (Editable schema.schema.user_attributes))
                (traverse (deserialize_attribute schema.schema.user_attributes false)
                  (unwrap_or_default user.insert_attributes))
                inserted (inserted-Editable _ _) k);
          state = refl;
        }

    update_user-OwnUpdate :
        (s : S)
        → is_admin v ≡ false
        → ((Mutation.update_user backend v user s).1 ≡ s)
          ⊎ OwnUpdate backend v s (Mutation.update_user backend v user s).1
    unfolding Mutation.update_user get_writeable_handler
    update_user-OwnUpdate s a = elim (Bool-cases (can_write v (new_user_id user.id))) [
      | inl allowed ↦
          (let P : S → Type 0 = λ t. (t ≡ s) ⊎ OwnUpdate backend v s t in
            rw (allowed, a)
              (continue-state P (decode_avatar user.avatar) _ s (inl refl) λ avatar _.
                continue-state P
                  (map_err backend_error (Result.map public_schema (backend.get_schema s))) _ s
                  (inl refl)
                  λ schema e.
                    continue-state P
                      (traverse (deserialize_attribute schema.schema.user_attributes false)
                        (unwrap_or_default user.insert_attributes))
                      _ s (inl refl)
                      λ inserted k.
                        let done : P (backend.update_user (sent avatar inserted) s).1 =
                          inr (own_update s avatar schema inserted a allowed e k) in
                        continue-state P
                          (map_err backend_error (backend.update_user (sent avatar inserted) s).0) _
                          _ done λ _ _. done))
      | inr refused ↦ rw refused (inl refl)
    ]

  -- A mutation by a user who is no administrator leaves the database as it was, or updates that
  -- user itself, and the attributes that it then inserts are in the schema and editable (the names and
  -- the photo are fields of the request of their own).
  pub mutate-OwnUpdate :
      {S : Type 0} (backend : Backend S) (v : ValidationResults) (request : Request) (s : S)
      → is_admin v ≡ false
      → ((mutate backend v request s).1 ≡ s) ⊎ OwnUpdate backend v s (mutate backend v request s).1
  unfolding mutate get_admin_handler Mutation.create_user Mutation.create_group
      Mutation.create_group_with_details Mutation.update_group Mutation.add_user_to_group
      Mutation.remove_user_from_group Mutation.delete_user Mutation.delete_group
      SchemaMutation.add_user_attribute SchemaMutation.add_group_attribute
      SchemaMutation.delete_user_attribute SchemaMutation.delete_group_attribute
      SchemaMutation.add_user_object_class SchemaMutation.add_group_object_class
      SchemaMutation.delete_user_object_class SchemaMutation.delete_group_object_class
  mutate-OwnUpdate backend v (Request.update_user user) s a =
      update_user-OwnUpdate backend v user s a
  mutate-OwnUpdate backend v (Request.create_user _) s a = rw a (inl refl)
  mutate-OwnUpdate backend v (Request.create_group _) s a = rw a (inl refl)
  mutate-OwnUpdate backend v (Request.create_group_with_details _) s a = rw a (inl refl)
  mutate-OwnUpdate backend v (Request.update_group _) s a = rw a (inl refl)
  mutate-OwnUpdate backend v (Request.add_user_to_group _ _) s a = rw a (inl refl)
  mutate-OwnUpdate backend v (Request.remove_user_from_group _ _) s a = rw a (inl refl)
  mutate-OwnUpdate backend v (Request.delete_user _) s a = rw a (inl refl)
  mutate-OwnUpdate backend v (Request.delete_group _) s a = rw a (inl refl)
  mutate-OwnUpdate backend v (Request.add_user_attribute _ _ _ _ _) s a = rw a (inl refl)
  mutate-OwnUpdate backend v (Request.add_group_attribute _ _ _ _ _) s a = rw a (inl refl)
  mutate-OwnUpdate backend v (Request.delete_user_attribute _) s a = rw a (inl refl)
  mutate-OwnUpdate backend v (Request.delete_group_attribute _) s a = rw a (inl refl)
  mutate-OwnUpdate backend v (Request.add_user_object_class _) s a = rw a (inl refl)
  mutate-OwnUpdate backend v (Request.add_group_object_class _) s a = rw a (inl refl)
  mutate-OwnUpdate backend v (Request.delete_user_object_class _) s a = rw a (inl refl)
  mutate-OwnUpdate backend v (Request.delete_group_object_class _) s a = rw a (inl refl)
