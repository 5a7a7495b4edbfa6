-- ===== src/Examples/Rows.antt =====
-- The theorems on the database, at the rows of the examples.
use lldap.Common.{true, ◌≡◌, refl, ◌⊎◌, none, some, [], ◌∷◌, any, All, find, if◌then◌else◌}
use lldap.Common.Result.{ok, err}
use lldap.Text.Utf8.{into_bytes}
use lldap.Text.{Bytes, codes, ◌==◌}
use lldap.Text.Utf8.{into_bytes}
use lldap.Domain.Handler.{UpdateUserRequest, Schema, get_attribute_type, get_attribute_schema}
use lldap.Server.Password.{change_password}
use lldap.Storage.Schema.{get_schema_with_transaction}
use lldap.Storage.Opaque.{registration_start, login_finish, sealed, opened}
use lldap.Storage.Login.{
  bind, register_password, registration_finish, wrong_password, login_start,
  get_password_file_for_user, LoginStartResponse,
}
use lldap.Storage.Passwords.{login_finish-user}
use lldap.Storage.Registration.{register_password-others}
use lldap.Storage.Completion.{register_password-binds}
use lldap.Storage.LdapPasswords.{change_password-decides}
use lldap.Storage.UserChanges.{
  update_changes, field_changes, insert_changes, delete_changes, process_serialized, process_option,
}
use lldap.Storage.Users.{update_user, update_user_with_transaction}
use lldap.Storage.Updates.{settings, removals, NamesKnown, IsKnown}
use lldap.Storage.Values.{
  update_user-value, update_user-others, update_user-atomic, or_else, last_setting,
}
use lldap.Storage.UserQueries.{list_users}
use lldap.Storage.Listing.{list_users-by_lookup, list_users_by_lookup}
use lldap.Storage.Backend.{sql_backend}
use lldap.Examples.World.{ascii, ann, bob, client}
use lldap.Examples.Tables.{
  Tables, tables, no_values, nickname, transactions, attribute_table, password_table,
}
use lldap.Examples.Secrets.{opaque, seals, protocol, exchange, sorted}

abbrev secret : Bytes
secret = codes "secret"

abbrev registered : Tables
registered = (register_password opaque tables client ann secret no_values).1

register_returns : register_password opaque tables client ann secret no_values ≡ (ok tt, registered)
unfolding register_password registration_start registration_finish sealed opened
register_returns = refl

register_password-others_example :
    bind opaque tables (record { name = bob; password = codes "guess" }) registered
    ≡ bind opaque tables (record { name = bob; password = codes "guess" }) no_values
unfolding ◌==◌
register_password-others_example =
    register_password-others opaque client seals protocol tables ann bob secret (codes "guess")
      no_values registered password_table refl register_returns

register_password-binds_example :
    (register_password opaque tables client ann (into_bytes (codes "secret")) no_values
      ≡ (ok tt, registered))
    × (bind opaque tables (record { name = ann; password = codes "secret" }) registered ≡ ok tt)
unfolding exchange register_password registration_start registration_finish sealed opened into_bytes
register_password-binds_example =
    register_password-binds opaque client seals tables protocol ann (codes "secret") no_values
      registered (exchange ann (into_bytes (codes "secret"))) password_table refl

abbrev changed : Tables
changed = (change_password client (sql_backend opaque tables 0) ann secret no_values).1

change_returns :
    change_password client (sql_backend opaque tables 0) ann secret no_values ≡ (ok tt, changed)
unfolding change_password sql_backend registration_start registration_finish sealed opened
change_returns = refl

change_password-decides_example :
    (sql_backend opaque tables 0).bind (record { name = ann; password = codes "guess" }) changed
    ≡ (if into_bytes (codes "guess") == secret then ok tt else err (wrong_password ann))
change_password-decides_example =
    change_password-decides opaque client seals protocol tables 0 ann secret (codes "guess")
      no_values changed password_table change_returns

abbrev started : LoginStartResponse
started = record {
  server_data = 1 ∷ 97 ∷ 1 ∷ 110 ∷ 1 ∷ 110 ∷ 0 ∷ secret;
  credential_response = secret;
}

login_starts : login_start opaque tables ann [] registered ≡ ok started
unfolding login_start register_password registration_start registration_finish sealed opened ◌==◌
    get_password_file_for_user
login_starts = refl

login_finishes : login_finish opaque started.server_data secret ≡ ok ann
unfolding login_finish opened ◌==◌
login_finishes = refl

login_finish-user_example : ann ≡ ann
login_finish-user_example =
    login_finish-user opaque tables ann ann [] secret registered started seals login_starts
      login_finishes

-- The nickname of Ann is set, and her first name removed.
abbrev renamed : UpdateUserRequest
renamed = record {
  user_id = ann;
  email = none;
  display_name = none;
  first_name = some [];
  last_name = none;
  avatar = none;
  delete_attributes = [];
  insert_attributes = record { name = nickname; value = codes "b" } ∷ [];
}

abbrev updated : Tables
updated = (update_user tables renamed no_values).1

update_returns : update_user tables renamed no_values ≡ (ok tt, updated)
unfolding update_user update_user_with_transaction update_changes field_changes insert_changes
    delete_changes process_serialized process_option get_schema_with_transaction get_attribute_type
    get_attribute_schema find ◌==◌
update_returns = refl

update_user-value_example :
    updated.values ann nickname
    ≡ or_else (last_setting nickname (settings renamed)) (
        if any (λ m. m == nickname) (removals renamed) then none else no_values.values ann nickname)
unfolding attribute_table
update_user-value_example =
    update_user-value tables attribute_table renamed nickname no_values updated transactions
      update_returns

update_user-others_example : updated.values bob nickname ≡ no_values.values bob nickname
unfolding ◌==◌ attribute_table
update_user-others_example =
    update_user-others tables attribute_table renamed bob nickname no_values updated transactions
      refl update_returns

update_user-atomic_example :
    (updated ≡ no_values)
    ⊎ ((schema : Schema) × (get_schema_with_transaction tables no_values ≡ ok schema)
        × All (NamesKnown schema.user_attributes) renamed.insert_attributes
        × All (IsKnown schema.user_attributes) renamed.delete_attributes)
update_user-atomic_example = update_user-atomic tables renamed no_values transactions

list_users-by_lookup_example :
    list_users tables none true no_values ≡ list_users_by_lookup tables none no_values
list_users-by_lookup_example = list_users-by_lookup tables none true no_values sorted
