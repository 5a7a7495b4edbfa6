-- ===== src/Examples/Tables.antt =====
-- A small database of rows, and operations of OPAQUE under which a password file is the password.
-- Only the tables that the theorems read change; the other statements do nothing.
use lldap.Common.{
  true, false, ◌&&◌, ◌≡◌, refl, ap, ◌⊎◌, inl, inr, Option, none, some, List, [], ◌∷◌, any,
  if◌then◌else◌,
}
use lldap.Common.Int.{ℤ, pos}
use lldap.Common.Result.{Result, ok, err, panic}
use lldap.Text.{Bytes, codes, ◌==◌}
use lldap.Text.Laws.{==_refl}
use lldap.Domain.Error.{DomainError}
use lldap.Domain.Types.{AttributeType, UserId, AttributeName, Serialized}
use lldap.Storage.{
  ActiveValue, set, not_set, Database, UserRow, UserAttributeRow, UserAttributeSchemaRow,
}
use lldap.Storage.Passwords.{PasswordTable}
use lldap.Storage.Values.{TransactionLaws, AttributeTable, or_else, last_row}
use lldap.Examples.World.{ann}

pub record Tables : Type 0 where
  pub passwords : UserId → Option (Option Bytes)
  pub values : UserId → AttributeName → Option Serialized
  pub hashes : List ℤ
  pub blacklisted : List ℤ

abbrev kept : {A : Type 0} → Result DomainError A × Tables → Tables → Result DomainError A × Tables
kept (ok a, t) s = (ok a, t)
kept (err e, t) s = (err e, s)
kept (panic, t) s = (panic, s)

abbrev pub set_password : ActiveValue UserId → ActiveValue (Option Bytes) → Tables → Tables
set_password (set u) (set h) s = record s {
  passwords = λ v. if v == u then some h else s.passwords v;
}
set_password _ _ s = s

abbrev unchanged : Tables → Result DomainError (Unit {0}) × Tables
unchanged s = (ok tt, s)

abbrev pub ann_row : UserRow
ann_row = record {
  user_id = ann;
  email = ann;
  lowercase_email = ann;
  display_name = none;
  creation_date = 0;
  password_hash = none;
  totp_secret = none;
  mfa_type = none;
  uuid = ann;
}

abbrev pub nickname : AttributeName
nickname = codes "nick"

abbrev pub ann_attribute : UserAttributeRow
ann_attribute = record { user_id = ann; attribute_name = nickname; value = codes "a" }

abbrev nickname_row : UserAttributeSchemaRow
nickname_row = record {
  attribute_name = nickname;
  attribute_type = AttributeType.string;
  is_list = false;
  is_user_visible = true;
  is_user_editable = true;
  is_hardcoded = false;
}

abbrev pub tables : Database Tables
tables = record {
  transaction = λ m s. kept (m s) s;
  find_user = λ u s. ok (some ann_row);
  find_users = λ c s. ok ((ann_row, []) ∷ []);
  find_password_hash = λ u s. ok (s.passwords u);
  insert_user = λ m. unchanged;
  update_user = λ m s. (ok tt, set_password m.user_id m.password_hash s);
  delete_user = λ u s. (ok 1, s);
  find_user_attributes = λ c s. ok (ann_attribute ∷ []);
  attributes_of_user = λ u s. ok [];
  insert_user_attributes = λ rows. unchanged;
  upsert_user_attributes =
      λ rows s. (ok tt, record s { values = λ v n. or_else (last_row v n rows) (s.values v n) });
  delete_user_attributes = λ u names s. (
    ok tt,
    record s { values = λ v n. if (v == u) && any (λ m. m == n) names then none else s.values v n },
  );
  groups_of_user = λ u s. ok [];
  insert_membership = λ u g. unchanged;
  delete_membership = λ u g s. (ok 1, s);
  find_group = λ g s. ok none;
  find_groups = λ c s. ok [];
  insert_group = λ m s. (ok (pos 3), s);
  update_group = λ m. unchanged;
  delete_group = λ g s. (ok 1, s);
  find_group_attributes = λ c s. ok [];
  attributes_of_group = λ g s. ok [];
  insert_group_attributes = λ rows. unchanged;
  upsert_group_attributes = λ rows. unchanged;
  delete_group_attributes = λ g names. unchanged;
  user_attribute_schema = λ s. ok (nickname_row ∷ []);
  group_attribute_schema = λ s. ok [];
  user_object_classes = λ s. ok [];
  group_object_classes = λ s. ok [];
  insert_user_attribute_schema = λ row. unchanged;
  insert_group_attribute_schema = λ row. unchanged;
  delete_user_attribute_schema = λ n. unchanged;
  delete_group_attribute_schema = λ n. unchanged;
  insert_user_object_class = λ row. unchanged;
  insert_group_object_class = λ row. unchanged;
  delete_user_object_class = λ n. unchanged;
  delete_group_object_class = λ n. unchanged;
}

abbrev pub no_values : Tables
no_values = record { passwords = λ u. none; values = λ u n. none; hashes = []; blacklisted = [] }

commits :
    {A : Type 0} (r : Result DomainError A × Tables) (s t : Tables) (a : A)
    → kept r s ≡ (ok a, t)
    → r ≡ (ok a, t)
commits (ok b, u) s t a h = h
commits (err e, u) s t a h = cc h
commits (panic, u) s t a h = cc h

rolls_back :
    {A : Type 0} (m : Result DomainError A × Tables) (s t : Tables) (r : Result DomainError A)
    → kept m s ≡ (r, t)
    → ((a : A) × (r ≡ ok a)) ⊎ (t ≡ s)
rolls_back (ok b, u) s t r h = inl (b, cc h)
rolls_back (err e, u) s t r h = inr (cc h)
rolls_back (panic, u) s t r h = inr (cc h)

pub transactions : TransactionLaws tables
transactions = record {
  commits = λ m s t a. commits (m s) s t a;
  rolls_back = λ m s t r. rolls_back (m s) s t r;
}

pub set_password-values :
    (a : ActiveValue UserId) (b : ActiveValue (Option Bytes)) (s : Tables)
    → (set_password a b s).values ≡ s.values
set_password-values (set u) (set h) s = refl
set_password-values (set u) not_set s = refl
set_password-values not_set b s = refl

unfoldable pub attribute_table : AttributeTable tables
attribute_table = record {
  value = λ u n s. s.values u n;
  after_delete = λ u v names n s t h. rw (← ap (λ p. p.1) h) refl;
  after_upsert = λ rows v n s t h. rw (← ap (λ p. p.1) h) refl;
  after_update =
      λ m v n s t h. rw (← ap (λ p. p.1) h, set_password-values m.user_id m.password_hash s) refl;
}

keeps_others :
    (a : ActiveValue UserId) (b : ActiveValue (Option Bytes)) (u v : UserId) (s t : Tables)
    → a ≡ set u
    → (v == u) ≡ false
    → set_password a b s ≡ t
    → t.passwords v ≡ s.passwords v
keeps_others a (set h) u v s t e differ r = rw (← r, e, differ) refl
keeps_others a not_set u v s t e differ r = rw (← r, e) refl

pub password_table : PasswordTable tables
password_table = record {
  update_sets = λ m u h s t e k r. rw (← ap (λ p. p.1) r, e, k, ==_refl u) refl;
  update_keeps = λ m u v s t e differ r.
      ap ok (keeps_others m.user_id m.password_hash u v s t e differ (ap (λ p. p.1) r));
}
