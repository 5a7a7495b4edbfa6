-- ===== src/Storage/Updates.antt =====
-- What an update of a user writes, described from the request alone
-- (sql_user_backend_handler.rs, `update_user_with_transaction`).
use mathlib.Core.List.{append_assoc, append-nil, map-append}
use lldap.Common.{
  ◌≡◌, refl, true, Option, none, some, inl, inr, List, [], ◌∷◌, ◌++◌, map, All, Bool-cases, is_some,
}
use lldap.Common.Result.{OnOk, OnOk-bind_with, OnOk-weaken}
use lldap.Text.{codes}
use lldap.Domain.Types.{
  External, UserId, AttributeName, AttributeValue, Serialized, new_attribute_name,
}
use lldap.Domain.Handler.{UpdateUserRequest, AttributeList, Schema, get_attribute_type}
use lldap.Storage.{ActiveValue, set, not_set, UserAttributeRow}
use lldap.Storage.UserChanges.{
  Changes, no_changes, process_serialized, process_option, insert_changes, delete_changes,
  field_changes, update_changes, to_serialized_value, into_active_value,
}

-- A field that the request leaves alone sets and removes nothing; an empty one is a removal.
abbrev setting : AttributeName → Option (ActiveValue Serialized) → List AttributeValue
setting name none = []
setting name (some not_set) = []
setting name (some (set v)) = record { name = name; value = v } ∷ []

abbrev removal : AttributeName → Option (ActiveValue Serialized) → List AttributeName
removal name none = []
removal name (some not_set) = name ∷ []
removal name (some (set v)) = []

abbrev first_name : AttributeName
first_name = new_attribute_name (codes "first_name")

abbrev last_name : AttributeName
last_name = new_attribute_name (codes "last_name")

abbrev avatar : AttributeName
avatar = new_attribute_name (codes "avatar")

abbrev pub row_of : UserId → AttributeValue → UserAttributeRow
row_of u a = record { user_id = u; attribute_name = a.name; value = a.value }

module _ ⦃lib : External⦄ where
  -- What the request sets, in order, and what it removes.
  abbrev pub settings : UpdateUserRequest → List AttributeValue
  settings request =
      setting first_name (to_serialized_value request.first_name)
      ++ setting last_name (to_serialized_value request.last_name)
      ++ setting avatar (into_active_value request.avatar)
      ++ request.insert_attributes

  abbrev pub removals : UpdateUserRequest → List AttributeName
  removals request =
      removal first_name (to_serialized_value request.first_name)
      ++ removal last_name (to_serialized_value request.last_name)
      ++ removal avatar (into_active_value request.avatar)
      ++ request.delete_attributes

-- The changes by a list of settings and a list of removals, after those already there.
unfoldable extended : UserId → Changes → List AttributeValue → List AttributeName → Changes
extended u c as' names = record {
  update = c.update ++ map (row_of u) as';
  remove = c.remove ++ names;
}

process_option-extended :
    (u : UserId) (v : Option (ActiveValue Serialized)) (name : AttributeName) (c : Changes)
    → process_option u v name c ≡ extended u c (setting name v) (removal name v)
unfolding process_option process_serialized extended
process_option-extended u none name c = rw (append-nil c.update, append-nil c.remove) refl
process_option-extended u (some not_set) name c = rw (append-nil c.update) refl
process_option-extended u (some (set v)) name c = rw (append-nil c.remove) refl

-- Two steps make one.
extended-extended :
    (u : UserId) (c : Changes) (as' bs : List AttributeValue) (ms ns : List AttributeName)
    → extended u (extended u c as' ms) bs ns ≡ extended u c (as' ++ bs) (ms ++ ns)
unfolding extended
extended-extended u c as' bs ms ns =
    rw
      (
        map-append (row_of u) as' bs,
        append_assoc c.update (map (row_of u) as') (map (row_of u) bs),
        append_assoc c.remove ms ns,
      )
      refl

abbrev pub IsKnown : AttributeList → AttributeName → Type 0
IsKnown schema name = is_some (get_attribute_type schema name) ≡ true

abbrev pub NamesKnown : AttributeList → AttributeValue → Type 0
NamesKnown schema a = IsKnown schema a.name

abbrev Grown : AttributeList → UserId → List AttributeValue → Changes → Changes → Type 0
Grown schema u as' c d = (d ≡ extended u c as' []) × All (NamesKnown schema) as'

insert_changes-Grown :
    (schema : AttributeList) (u : UserId) (as' : List AttributeValue) (c : Changes)
    → OnOk (Grown schema u as' c) (insert_changes schema u as' c)
unfolding insert_changes process_serialized extended
insert_changes-Grown schema u [] c = (rw (append-nil c.update, append-nil c.remove) refl, tt)
insert_changes-Grown schema u (a ∷ as') c =
    elim (Bool-cases (is_some (get_attribute_type schema a.name))) [
      | inl known ↦
          (rw known (
            OnOk-weaken (Grown schema u as' (process_serialized u (set a.value) a.name c))
              (Grown schema u (a ∷ as') c) _ (insert_changes-Grown schema u as' _)
              λ d (e, all). (
                rw (e, append_assoc c.update (row_of u a ∷ []) (map (row_of u) as')) refl,
                (known, all),
              )))
      | inr unknown ↦ rw unknown tt
    ]

abbrev Shrunk : AttributeList → UserId → List AttributeName → Changes → Changes → Type 0
Shrunk schema u names c d = (d ≡ extended u c [] names) × All (IsKnown schema) names

delete_changes-Shrunk :
    (schema : AttributeList) (u : UserId) (names : List AttributeName) (c : Changes)
    → OnOk (Shrunk schema u names c) (delete_changes schema names c)
unfolding delete_changes extended
delete_changes-Shrunk schema u [] c = (rw (append-nil c.update, append-nil c.remove) refl, tt)
delete_changes-Shrunk schema u (name ∷ names) c =
    elim (Bool-cases (is_some (get_attribute_type schema name))) [
      | inl known ↦
          (rw known (
            OnOk-weaken (Shrunk schema u names (record c { remove = c.remove ++ name ∷ [] }))
              (Shrunk schema u (name ∷ names) c) _ (delete_changes-Shrunk schema u names _)
              λ d (e, all). (rw (e, append_assoc c.remove (name ∷ []) names) refl, (known, all))))
      | inr unknown ↦ rw unknown tt
    ]

changes_whole :
    (u : UserId) (b c d : Changes) (as' bs : List AttributeValue) (ms ns : List AttributeName)
    → b ≡ extended u no_changes as' ms
    → c ≡ extended u b bs []
    → d ≡ extended u c [] ns
    → d ≡ extended u no_changes (as' ++ bs) (ms ++ ns)
changes_whole u b c d as' bs ms ns eb ec ed =
    rw
      (
        ed,
        ec,
        eb,
        extended-extended u no_changes,
        extended-extended u no_changes,
        append-nil (as' ++ bs),
        append-nil ms,
      )
      refl

module _ ⦃lib : External⦄ where
  -- The changes are those that the request asks for, and the schema has every attribute that the
  -- request inserts or deletes by name.
  pub record Requested (schema : Schema) (request : UpdateUserRequest) (c : Changes) : Type 0 where
    pub update : c.update ≡ map (row_of request.user_id) (settings request)
    pub remove : c.remove ≡ removals request
    pub inserted : All (NamesKnown schema.user_attributes) request.insert_attributes
    pub deleted : All (IsKnown schema.user_attributes) request.delete_attributes

  field_changes-extended :
      (request : UpdateUserRequest)
      → field_changes request
        ≡ extended request.user_id no_changes
            (setting first_name (to_serialized_value request.first_name)
              ++ setting last_name (to_serialized_value request.last_name)
              ++ setting avatar (into_active_value request.avatar))
            (removal first_name (to_serialized_value request.first_name)
              ++ removal last_name (to_serialized_value request.last_name)
              ++ removal avatar (into_active_value request.avatar))
  unfolding field_changes
  field_changes-extended request =
      let u : UserId = request.user_id in
      rw
        (
          process_option-extended u (to_serialized_value request.first_name) first_name no_changes,
          process_option-extended u (to_serialized_value request.last_name) last_name,
          process_option-extended u (into_active_value request.avatar) avatar,
          extended-extended u no_changes,
          extended-extended u no_changes,
        )
        refl

  requested :
      {schema : Schema} (request : UpdateUserRequest) (c d : Changes)
      → c ≡ extended request.user_id (field_changes request) request.insert_attributes []
      → d ≡ extended request.user_id c [] request.delete_attributes
      → All (NamesKnown schema.user_attributes) request.insert_attributes
      → All (IsKnown schema.user_attributes) request.delete_attributes
      → Requested schema request d
  unfolding extended
  requested request c d e k known gone =
      let u : UserId = request.user_id in
      let whole : d ≡ extended u no_changes (settings request) (removals request) =
        changes_whole u (field_changes request) c d _ _ _ _ (field_changes-extended request) e k in
      record { update = rw whole refl; remove = rw whole refl; inserted = known; deleted = gone }

  pub update_changes-Requested :
      (schema : Schema) (request : UpdateUserRequest)
      → OnOk (Requested schema request) (update_changes schema request)
  unfolding update_changes field_changes
  update_changes-Requested schema request =
      OnOk-bind_with
        (Grown schema.user_attributes request.user_id request.insert_attributes
          (field_changes request))
        (Requested schema request) _ _
        (insert_changes-Grown schema.user_attributes request.user_id request.insert_attributes _)
        λ c (e, known).
          OnOk-weaken (Shrunk schema.user_attributes request.user_id request.delete_attributes c)
            (Requested schema request) _
            (delete_changes-Shrunk schema.user_attributes request.user_id request.delete_attributes
              c)
            λ d (k, gone). requested request c d e k known gone
