-- ===== src/Storage/UserChanges.antt =====
-- server/src/domain/sql_user_backend_handler.rs: the rows that a creation or an update of a user
-- writes, and the attributes that an update removes.
use lldap.Common.{Option, none, some, String, List, [], ◌∷◌, ◌++◌, is_some, if◌then◌else◌}
use lldap.Common.Result.{ok, err, ◌>>=◌}
use lldap.Text.{Str, codes}
use lldap.Text.Utf8.{into_bytes}
use lldap.Domain.Error.{DomainError, DomainResult, internal_error}
use lldap.Domain.Types.{
  External, UserId, AttributeName, AttributeValue, Serialized, Uuid, JpegPhoto, NaiveDateTime,
  new_attribute_name, serialized_str, serialized_photo,
}
use lldap.Domain.Handler.{
  AttributeList, CreateUserRequest, UpdateUserRequest, Schema, get_attribute_type,
}
use lldap.Storage.{ActiveValue, set, not_set, set_some, UserActiveModel, UserAttributeRow}

unfoldable pub to_value : Option Str → ActiveValue (Option Str)
to_value none = not_set
to_value (some []) = set none
to_value (some (c ∷ name)) = set (some (c ∷ name))

-- The attributes that an update sets, and those that it removes, in the order of the pushes.
pub record Changes : Type 0 where
  pub update : List UserAttributeRow
  pub remove : List AttributeName

abbrev pub no_changes : Changes
no_changes = record { update = []; remove = [] }

unfoldable pub process_serialized :
    UserId → ActiveValue Serialized → AttributeName → Changes → Changes
process_serialized u not_set name c = record c { remove = c.remove ++ name ∷ [] }
process_serialized u (set v) name c = record c {
  update = c.update ++ record { user_id = u; attribute_name = name; value = v } ∷ [];
}

unfoldable pub process_option :
    UserId → Option (ActiveValue Serialized) → AttributeName → Changes → Changes
unfolding process_serialized
process_option u none name c = c
process_option u (some v) name c = process_serialized u v name c

-- The message of an attribute that the schema does not have.
abbrev unknown_user_attribute : AttributeName → String → DomainError
unknown_user_attribute name what = internal_error (
    codes "User attribute name "
    ++ name
    ++ codes " doesn't exist in the schema, yet was attempted to be "
    ++ codes what)

unfoldable pub insert_changes :
    AttributeList → UserId → List AttributeValue → Changes → DomainResult Changes
unfolding process_serialized
insert_changes schema u [] c = ok c
insert_changes schema u (a ∷ as') c =
    let rest = insert_changes schema u as' (process_serialized u (set a.value) a.name c) in
    if is_some (get_attribute_type schema a.name)
    then rest
    else err (unknown_user_attribute a.name "inserted in the database")

unfoldable pub delete_changes : AttributeList → List AttributeName → Changes → DomainResult Changes
delete_changes schema [] c = ok c
delete_changes schema (name ∷ names) c =
    let rest = delete_changes schema names (record c { remove = c.remove ++ name ∷ [] }) in
    if is_some (get_attribute_type schema name)
    then rest
    else err (unknown_user_attribute name "removed from the database")

-- The rows of the attributes of a new user.
unfoldable pub new_rows :
    AttributeList
    → UserId
    → List AttributeValue
    → List UserAttributeRow
    → DomainResult (List UserAttributeRow)
new_rows schema u [] rows = ok rows
new_rows schema u (a ∷ as') rows =
    let rest =
      new_rows schema u as'
        (rows ++ record { user_id = u; attribute_name = a.name; value = a.value } ∷ []) in
    if is_some (get_attribute_type schema a.name)
    then rest
    else err (
        internal_error (
          codes "Attribute name "
          ++ a.name
          ++ codes " doesn't exist in the user schema,"
          ++ 10
            ∷ codes
                "                                    yet was attempted to be inserted in the database"))

module _ ⦃lib : External⦄ where
  unfoldable pub from_name_and_date : Str → NaiveDateTime → Uuid
  from_name_and_date name creation_date =
      lib.new_uuid_v3 (into_bytes name ++ into_bytes (lib.to_rfc3339 creation_date))

  -- The closure `to_serialized_value`.
  unfoldable pub to_serialized_value : Option Str → Option (ActiveValue Serialized)
  to_serialized_value none = none
  to_serialized_value (some []) = some not_set
  to_serialized_value (some (c ∷ s)) = some (set (serialized_str (c ∷ s)))

  -- `IntoActiveValue<Serialized> for JpegPhoto`
  unfoldable pub into_active_value : Option JpegPhoto → Option (ActiveValue Serialized)
  into_active_value none = none
  into_active_value (some []) = some not_set
  into_active_value (some (b ∷ photo)) = some (set (serialized_photo (b ∷ photo)))

  abbrev pub update_model : UpdateUserRequest → UserActiveModel
  update_model request = record {
    user_id = set request.user_id;
    email = set_some request.email;
    lowercase_email = elim request.email [ none ↦ not_set | some s ↦ set (lib.str_to_lowercase s) ];
    display_name = to_value request.display_name;
    creation_date = not_set;
    password_hash = not_set;
    totp_secret = not_set;
    mfa_type = not_set;
    uuid = not_set;
  }

  abbrev pub new_user_model : NaiveDateTime → CreateUserRequest → UserActiveModel
  new_user_model now request = record {
    user_id = set request.user_id;
    email = set request.email;
    lowercase_email = set (lib.str_to_lowercase request.email);
    display_name = to_value request.display_name;
    creation_date = set now;
    password_hash = not_set;
    totp_secret = not_set;
    mfa_type = not_set;
    uuid = set (from_name_and_date request.user_id now);
  }

  -- The rows of the three fields of a new user that are attributes.
  abbrev row_if : UserId → Str → Option Serialized → List UserAttributeRow
  row_if u name none = []
  row_if u name (some v) =
      record { user_id = u; attribute_name = new_attribute_name name; value = v } ∷ []

  abbrev str_value : Option Str → Option Serialized
  str_value none = none
  str_value (some s) = some (serialized_str s)

  abbrev photo_value : Option JpegPhoto → Option Serialized
  photo_value none = none
  photo_value (some p) = some (serialized_photo p)

  unfoldable pub field_rows : CreateUserRequest → List UserAttributeRow
  field_rows request =
      row_if request.user_id (codes "first_name") (str_value request.first_name)
      ++ row_if request.user_id (codes "last_name") (str_value request.last_name)
      ++ row_if request.user_id (codes "avatar") (photo_value request.avatar)

  -- The changes by the three fields of an update that are attributes.
  unfoldable pub field_changes : UpdateUserRequest → Changes
  unfolding process_option to_serialized_value into_active_value
  field_changes request =
      let first =
        process_option request.user_id (to_serialized_value request.first_name)
          (new_attribute_name (codes "first_name")) no_changes in
      let last =
        process_option request.user_id (to_serialized_value request.last_name)
          (new_attribute_name (codes "last_name")) first in
      process_option request.user_id (into_active_value request.avatar)
        (new_attribute_name (codes "avatar")) last

  -- What an update changes of the attributes, or the error of an attribute not in the schema.
  unfoldable pub update_changes : Schema → UpdateUserRequest → DomainResult Changes
  unfolding field_changes insert_changes delete_changes
  update_changes schema request = do
    changes ←
        insert_changes schema.user_attributes request.user_id request.insert_attributes
          (field_changes request)
    delete_changes schema.user_attributes request.delete_attributes changes
