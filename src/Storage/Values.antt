-- ===== src/Storage/Values.antt =====
-- What an update of a user leaves in the table of attributes (sql_user_backend_handler.rs), over what
-- the statements promise.
use lldap.Common.{
  ◌≡◌, refl, ap, ◌⊎◌, inl, inr, false, ◌&&◌, Option, none, some, List, [], ◌∷◌, map, All, any,
  if◌then◌else◌, arith,
}
use lldap.Common.Result.{Result, ok, OnOk-elim}
use lldap.Common.Exec.{continue-eq-ok, >>=-returned}
use lldap.Text.{◌==◌}
use lldap.Text.Laws.{==_refl, ==_differ}
use lldap.Domain.Error.{DomainError}
use lldap.Domain.Types.{External, UserId, AttributeName, AttributeValue, Serialized}
use lldap.Domain.Handler.{UpdateUserRequest, Schema}
use lldap.Storage.{UserActiveModel, UserAttributeRow, Statement, Database}
use lldap.Storage.Schema.{get_schema_with_transaction}
use lldap.Storage.UserChanges.{Changes, update_changes, update_model}
use lldap.Storage.Users.{update_user, update_user_with_transaction, unless_empty}
use lldap.Storage.Updates.{
  settings, removals, row_of, NamesKnown, IsKnown, Requested, update_changes-Requested,
}

-- `DatabaseConnection::transaction`: what the body did is kept when it returned a value, and undone
-- when the call returns none.
pub record TransactionLaws {S : Type 0} (db : Database S) : Type 1 where
  pub commits :
      {A : Type 0} (m : Statement S A) (s t : S) (a : A)
      → db.transaction m s ≡ (ok a, t)
      → m s ≡ (ok a, t)
  pub rolls_back :
      {A : Type 0} (m : Statement S A) (s t : S) (r : Result DomainError A)
      → db.transaction m s ≡ (r, t)
      → ((a : A) × (r ≡ ok a)) ⊎ (t ≡ s)

abbrev pub or_else : Option Serialized → Option Serialized → Option Serialized
or_else none other = other
or_else (some v) other = some v

-- The last value of a name among settings, and of a user's name among rows.
abbrev pub last_setting : AttributeName → List AttributeValue → Option Serialized
last_setting n [] = none
last_setting n (a ∷ as') = or_else (last_setting n as') (if a.name == n then some a.value else none)

abbrev pub last_row : UserId → AttributeName → List UserAttributeRow → Option Serialized
last_row u n [] = none
last_row u n (row ∷ rows) =
    or_else (last_row u n rows)
      (if (row.user_id == u) && (row.attribute_name == n) then some row.value else none)

-- The table of attributes: the value of an attribute of a user, if it has one.
pub record AttributeTable {S : Type 0} (db : Database S) : Type 0 where
  pub value : UserId → AttributeName → S → Option Serialized
  pub after_delete :
      (u v : UserId) (names : List AttributeName) (n : AttributeName) (s t : S)
      → db.delete_user_attributes u names s ≡ (ok tt, t)
      → value v n t ≡ (if (v == u) && any (λ m. m == n) names then none else value v n s)
  pub after_upsert :
      (rows : List UserAttributeRow) (v : UserId) (n : AttributeName) (s t : S)
      → db.upsert_user_attributes rows s ≡ (ok tt, t)
      → value v n t ≡ or_else (last_row v n rows) (value v n s)
  pub after_update :
      (m : UserActiveModel) (v : UserId) (n : AttributeName) (s t : S)
      → db.update_user m s ≡ (ok tt, t)
      → value v n t ≡ value v n s

last_row-map :
    (u : UserId) (n : AttributeName) (as' : List AttributeValue)
    → last_row u n (map (row_of u) as') ≡ last_setting n as'
last_row-map u n [] = refl
last_row-map u n (a ∷ as') = rw (==_refl u, last_row-map u n as') refl

last_row-other :
    (u v : UserId) (n : AttributeName) (as' : List AttributeValue)
    → (u == v) ≡ false
    → last_row v n (map (row_of u) as') ≡ none
last_row-other u v n [] differ = refl
last_row-other u v n (a ∷ as') differ = rw (last_row-other u v n as' differ, differ) refl

module _ ⦃lib : External⦄ {S : Type 0} (db : Database S) where
  -- The parts of an update that returned.
  pub record Updated (request : UpdateUserRequest) (s t : S) : Type 0 where
    pub schema : Schema
    pub read : get_schema_with_transaction db s ≡ ok schema
    pub changes : Changes
    pub requested : Requested schema request changes
    pub after_row : S
    pub after_removal : S
    pub row : db.update_user (update_model request) s ≡ (ok tt, after_row)
    pub removed :
        unless_empty changes.remove
          (db.delete_user_attributes request.user_id changes.remove)
          after_row
        ≡ (ok tt, after_removal)
    pub inserted :
        unless_empty changes.update (db.upsert_user_attributes changes.update) after_removal
        ≡ (ok tt, t)

  pub update_user-Updated :
      (request : UpdateUserRequest) (s t : S)
      → TransactionLaws db
      → update_user db request s ≡ (ok tt, t)
      → Updated request s t
  unfolding update_user update_user_with_transaction
  update_user-Updated request s t laws h =
      let body : update_user_with_transaction db request s ≡ (ok tt, t) =
        laws.commits (update_user_with_transaction db request) s t tt h in
      let (schema, e1, h1) = continue-eq-ok (get_schema_with_transaction db s) _ s body in
      let (changes, e2, h2) = continue-eq-ok (update_changes schema request) _ s h1 in
      let (_, after_row, e3, h3) =
        >>=-returned (db.update_user (update_model request)) _ s t tt h2 in
      let (_, after_removal, e4, e5) =
        >>=-returned
          (unless_empty changes.remove (db.delete_user_attributes request.user_id changes.remove)) _
          after_row t tt h3 in
      record {
        schema = schema;
        read = e1;
        changes = changes;
        requested =
            OnOk-elim (Requested schema request) (update_changes schema request) changes
              (update_changes-Requested schema request) e2;
        after_row = after_row;
        after_removal = after_removal;
        row = e3;
        removed = e4;
        inserted = e5;
      }

  module _ (table : AttributeTable db) where
    after_removals :
        (u v : UserId) (names : List AttributeName) (n : AttributeName) (s t : S)
        → unless_empty names (db.delete_user_attributes u names) s ≡ (ok tt, t)
        → table.value v n t
          ≡ (if (v == u) && any (λ m. m == n) names then none else table.value v n s)
    after_removals u v [] n s t h = let same : s ≡ t = ap (λ p. p.1) h in rw (← same) (ground arith)
    after_removals u v (m ∷ names) n s t h = table.after_delete u v (m ∷ names) n s t h

    after_inserts :
        (rows : List UserAttributeRow) (v : UserId) (n : AttributeName) (s t : S)
        → unless_empty rows (db.upsert_user_attributes rows) s ≡ (ok tt, t)
        → table.value v n t ≡ or_else (last_row v n rows) (table.value v n s)
    after_inserts [] v n s t h = let same : s ≡ t = ap (λ p. p.1) h in rw (← same) refl
    after_inserts (r ∷ rows) v n s t h = table.after_upsert (r ∷ rows) v n s t h

    -- Over a database with transactions and a table of attributes: after an update of a user that
    -- returned, an attribute of that user has the last value that the request sets for it; else none,
    -- when the request removes it; else the value that it had.
    pub update_user-value :
        (request : UpdateUserRequest) (n : AttributeName) (s t : S)
        → TransactionLaws db
        → update_user db request s ≡ (ok tt, t)
        → table.value request.user_id n t
          ≡ or_else (last_setting n (settings request)) (
              if any (λ m. m == n) (removals request)
              then none
              else table.value request.user_id n s)
    update_user-value request n s t laws h =
        let u : UserId = request.user_id in
        let w : Updated request s t = update_user-Updated request s t laws h in
        rw
          (
            after_inserts w.changes.update u n w.after_removal t w.inserted,
            after_removals u u w.changes.remove n w.after_row w.after_removal w.removed,
            table.after_update (update_model request) u n s w.after_row w.row,
            w.requested.update,
            w.requested.remove,
            last_row-map u n (settings request),
            ==_refl u,
          )
          refl

    -- Over a database with transactions and a table of attributes, an update of a user that returned
    -- changes no attribute of another user.
    pub update_user-others :
        (request : UpdateUserRequest) (v : UserId) (n : AttributeName) (s t : S)
        → TransactionLaws db
        → (request.user_id == v) ≡ false
        → update_user db request s ≡ (ok tt, t)
        → table.value v n t ≡ table.value v n s
    update_user-others request v n s t laws differ h =
        let w : Updated request s t = update_user-Updated request s t laws h in
        rw
          (
            after_inserts w.changes.update v n w.after_removal t w.inserted,
            after_removals request.user_id v w.changes.remove n w.after_row w.after_removal
                w.removed,
            table.after_update (update_model request) v n s w.after_row w.row,
            w.requested.update,
            last_row-other request.user_id v n (settings request) differ,
            ==_differ request.user_id v differ,
          )
          refl

  -- Over a database with transactions, an update either leaves the database as it was, or the schema read from it has every attribute
  -- that the request inserts or deletes by name.
  pub update_user-atomic :
      (request : UpdateUserRequest) (s : S)
      → TransactionLaws db
      → ((update_user db request s).1 ≡ s)
        ⊎ ((schema : Schema) × (get_schema_with_transaction db s ≡ ok schema)
            × All (NamesKnown schema.user_attributes) request.insert_attributes
            × All (IsKnown schema.user_attributes) request.delete_attributes)
  unfolding update_user
  update_user-atomic request s laws =
      elim (laws.rolls_back (update_user_with_transaction db request) s _ _ refl) [
        | inl (_, e) ↦
            (let w : Updated request s (update_user db request s).1 =
                update_user-Updated request s _ laws
                  (ap (λ r. (r, (update_user db request s).1)) e) in
              inr (w.schema, w.read, w.requested.inserted, w.requested.deleted))
        | inr same ↦ inl same
      ]
