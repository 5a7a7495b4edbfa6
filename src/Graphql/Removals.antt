-- ===== src/Graphql/Removals.antt =====
-- What an update of a user may remove (server/src/infra/graphql/mutation.rs, `update_user`).
use lldap.Common.{◌≡◌, refl, true, none, some, [], List, map}
use lldap.Common.Result.{ok}
use lldap.Text.{Str}
use lldap.Domain.Types.{External, new_user_id, new_attribute_name}
use lldap.Domain.Handler.{Schema, UpdateUserRequest}
use lldap.Domain.Backend.{Backend}
use lldap.Access.{ValidationResults, can_write, get_writeable_handler}
use lldap.Graphql.Mutation
use lldap.Graphql.Mutation.{UpdateUserInput}
use lldap.Graphql.Dispatch.{Request, mutate}

-- A request that removes attributes of a user and does nothing else, and what the backend gets of it.
abbrev pub removing : Str → List Str → UpdateUserInput
removing id names = record {
  id = id;
  email = none;
  display_name = none;
  first_name = none;
  last_name = none;
  avatar = none;
  remove_attributes = some names;
  insert_attributes = none;
}

abbrev pub removal : Str → List Str → UpdateUserRequest
removal id names = record {
  user_id = new_user_id id;
  email = none;
  display_name = none;
  first_name = none;
  last_name = none;
  avatar = none;
  delete_attributes = map new_attribute_name names;
  insert_attributes = [];
}

-- Whoever may write a user gets any of its attributes removed: whatever names the request lists, and
-- whatever the schema says of them, the backend is told to delete them all.
pub update_user-removes_any :
    ⦃lib : External⦄ {S : Type 0} (backend : Backend S) (v : ValidationResults) (id : Str)
    (names : List Str) (schema : Schema) (s t : S)
    → can_write v (new_user_id id) ≡ true
    → backend.get_schema s ≡ ok schema
    → backend.update_user (removal id names) s ≡ (ok tt, t)
    → mutate backend v (Request.update_user (removing id names)) s ≡ (ok Mutation.success, t)
unfolding mutate Mutation.update_user get_writeable_handler
update_user-removes_any backend v id names schema s t allowed read updated =
    rw (allowed, read, updated) refl
