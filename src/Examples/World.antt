-- ===== src/Examples/World.antt =====
-- A directory of two users and two groups, kept in memory. The operations of the other crates are
-- simple ones: only ASCII letters have two cases, and stored bytes are texts.
use lldap.Common.{
  ℕ, zero, suc, Bool, true, false, not, ◌&&◌, ◌≡◌, refl, Option, none, some, List, [], ◌∷◌, retain,
  retain-All, find, map, any, all, All, arith, if◌then◌else◌,
}
use lldap.Common.Int.{pos, negsuc}
use lldap.Common.Result.{ok, err, ok_or}
use lldap.Common.Result
use lldap.Text.{Str, Bytes, codes, ◌==◌, to_ascii_lowercase, lower_char, trim}
use lldap.Text.Laws.{==_iff}
use lldap.Domain.Types.{
  External, AttributeType, Decoded, UserAndGroups, Group, GroupDetails, UserId, GroupId,
}
use lldap.Domain.Handler.{
  UserRequestFilter, UserRequestFilters, GroupRequestFilter, GroupRequestFilters, Schema,
  AttributeSchema,
}
use lldap.Domain.Error.{DomainResult, authentication_error, entity_not_found}
use lldap.Domain.Backend.{Backend}
use lldap.Access.{Permission, ValidationResults}
use lldap.Access.Lister.{SelectsByFilter}
use lldap.Ldap.Dn.{rdn_is_lower}
use lldap.Ldap.Dn.Parsing.{IsPlain, IsPlainRdn}
use lldap.Ldap.Dn.Ids.{entry_dn}
use lldap.Ldap.Fields.{LdapInfo}
use lldap.Storage.GroupRows.{same_group}
use lldap.Server.Password.{OpaqueClient}

abbrev decode_bytes : (t : AttributeType) (is_list : Bool) → Bytes → Option (Decoded t is_list)
decode_bytes AttributeType.string false b = some b
decode_bytes AttributeType.integer false (zero ∷ n ∷ []) = some (pos n)
decode_bytes AttributeType.integer false (suc _ ∷ n ∷ []) = some (negsuc n)
decode_bytes _ _ b = none

abbrev encode_texts : (t : AttributeType) (is_list : Bool) → Decoded t is_list → Bytes
encode_texts AttributeType.string false s = s
encode_texts AttributeType.integer false (pos n) = 0 ∷ n ∷ []
encode_texts AttributeType.integer false (negsuc n) = 1 ∷ n ∷ []
encode_texts _ _ d = []

-- The text of a date has one character, its number.
abbrev date_of : Str → Option ℕ
date_of (n ∷ []) = some n
date_of _ = none

instance abbrev pub ascii : External
ascii = record {
  char_to_lowercase = λ c. lower_char c ∷ [];
  str_to_lowercase = to_ascii_lowercase;
  parse_uuid = λ s. some s;
  new_uuid_v3 = λ b. b;
  to_rfc3339 = λ t. t ∷ [];
  parse_rfc3339 = date_of;
  is_jpeg = λ b. true;
  decode_base64 = λ s. some s;
  encode_base64 = λ b. b;
  serialize = encode_texts;
  deserialize = decode_bytes;
}

abbrev pub ann : UserId
ann = codes "ann"

abbrev pub bob : UserId
bob = codes "bob"

-- The groups of the directory, the users that the backend knows, and the last password set.
pub record Directory : Type 0 where
  pub users : List UserAndGroups
  pub groups : List Group
  pub password : Bytes

abbrev pub account : UserId → UserAndGroups
account id = record {
  user = record {
    user_id = id;
    email = id;
    display_name = none;
    creation_date = 0;
    uuid = id;
    attributes = [];
  };
  groups = none;
}

abbrev pub group_of : Str → List UserId → Group
group_of name members = record {
  id = pos 1;
  display_name = name;
  creation_date = 0;
  uuid = name;
  users = members;
  attributes = [];
}

abbrev pub directory : Directory
directory = record {
  users = account ann ∷ account bob ∷ [];
  groups =
      group_of (codes "lldap_admin") (ann ∷ []) ∷ group_of (codes "staff") (ann ∷ bob ∷ []) ∷ [];
  password = [];
}

unfoldable mutual
  pub selects_user : UserRequestFilter → UserAndGroups → Bool
  selects_user (UserRequestFilter.and fs) u = all_select_user fs u
  selects_user (UserRequestFilter.not f) u = not (selects_user f u)
  selects_user (UserRequestFilter.user_id i) u = u.user.user_id == i
  selects_user _ u = false

  pub all_select_user : UserRequestFilters → UserAndGroups → Bool
  all_select_user UserRequestFilters.nil u = true
  all_select_user (UserRequestFilters.cons f fs) u = selects_user f u && all_select_user fs u

unfoldable mutual
  pub selects_group : GroupRequestFilter → Group → Bool
  selects_group (GroupRequestFilter.and fs) g = all_select_group fs g
  selects_group (GroupRequestFilter.not f) g = not (selects_group f g)
  selects_group (GroupRequestFilter.member i) g = any (λ u. u == i) g.users
  selects_group _ g = false

  pub all_select_group : GroupRequestFilters → Group → Bool
  all_select_group GroupRequestFilters.nil g = true
  all_select_group (GroupRequestFilters.cons f fs) g = selects_group f g && all_select_group fs g

abbrev pub chosen : {A B : Type 0} → (A → B → Bool) → Option A → List B → List B
chosen p none xs = xs
chosen p (some f) xs = retain (p f) xs

abbrev pub admins : GroupDetails
admins = record {
  group_id = pos 1;
  display_name = codes "lldap_admin";
  creation_date = 0;
  uuid = [];
  attributes = [];
}

abbrev nick : Bool → AttributeSchema
nick is_visible = record {
  name = codes "nick";
  attribute_type = AttributeType.string;
  is_list = false;
  is_visible = is_visible;
  is_editable = true;
  is_hardcoded = false;
}

abbrev schema_of : List AttributeSchema → Schema
schema_of attributes = record {
  user_attributes = record { attributes = attributes };
  group_attributes = record { attributes = [] };
  extra_user_object_classes = [];
  extra_group_object_classes = [];
}

-- Two attributes, one of them hidden from the users without `can_read_all`.
abbrev pub full_schema : Schema
full_schema = schema_of (nick true ∷ nick false ∷ [])

abbrev pub visible_schema : Schema
visible_schema = schema_of (nick true ∷ [])

abbrev user_named : UserId → Directory → DomainResult UserAndGroups
user_named u s =
    ok_or (entity_not_found u) (find (λ (a : UserAndGroups). a.user.user_id == u) s.users)

abbrev with_member : UserId → GroupId → Group → Group
with_member u g h = if same_group h.id g then record h { users = u ∷ h.users } else h

abbrev without_member : UserId → GroupId → Group → Group
without_member u g h =
    if same_group h.id g then record h { users = retain (λ v. not (v == u)) h.users } else h

abbrev pub memory : Backend Directory
memory = record {
  get_schema = λ s. ok full_schema;
  list_users = λ f g s. ok (chosen selects_user f s.users);
  list_groups = λ f s. ok (chosen selects_group f s.groups);
  get_user_groups = λ u s. ok (if u == codes "ann" then admins ∷ [] else []);
  create_user = λ r s. (
    ok tt,
    record { users = account r.user_id ∷ s.users; groups = s.groups; password = s.password },
  );
  bind = λ q s. if q.password == codes "secret" then ok tt else err (authentication_error q.name);
  registration_start = λ u m s. ok (record { server_data = u; registration_response = m });
  registration_finish =
      λ d m s. (ok tt, record { users = s.users; groups = s.groups; password = m });
  get_user_details = λ u s. Result.map (λ found. found.user) (user_named u s);
  update_user = λ r s. (ok tt, s);
  delete_user = λ u s. (
    ok tt,
    record s { users = retain (λ (a : UserAndGroups). not (a.user.user_id == u)) s.users },
  );
  add_user_to_group = λ u g s. (ok tt, record s { groups = map (with_member u g) s.groups });
  remove_user_from_group =
      λ u g s. (ok tt, record s { groups = map (without_member u g) s.groups });
  get_group_details = λ g s. ok admins;
  update_group = λ r s. (ok tt, s);
  create_group = λ r s. (ok (pos 3), record s { groups = group_of r.display_name [] ∷ s.groups });
  delete_group = λ g s.
      (ok tt, record s { groups = retain (λ (h : Group). not (same_group h.id g)) s.groups });
  add_user_attribute = λ r s. (ok tt, s);
  add_group_attribute = λ r s. (ok tt, s);
  delete_user_attribute = λ n s. (ok tt, s);
  delete_group_attribute = λ n s. (ok tt, s);
  add_user_object_class = λ n s. (ok tt, s);
  add_group_object_class = λ n s. (ok tt, s);
  delete_user_object_class = λ n s. (ok tt, s);
  delete_group_object_class = λ n s. (ok tt, s);
}

abbrev pub client : OpaqueClient
client = record {
  start_registration = λ p. some (p, p);
  finish_registration = λ state response. some state;
}

abbrev pub info : LdapInfo
info = record {
  base_dn = (codes "dc", codes "org") ∷ [];
  base_dn_str = codes "dc=org";
  ignored_user_attributes = [];
  ignored_group_attributes = [];
}

abbrev pub has : UserId → Permission → ValidationResults
has u p = record { user = u; permission = p }

pub memory_laws : SelectsByFilter memory
unfolding selects_user selects_group
memory_laws = record {
  SelectsUser = λ s f u. selects_user f u ≡ true;
  SelectsGroup = λ s f g. selects_group f g ≡ true;
  list_users_selects = λ f g s us e.
      (let same : retain (selects_user f) s.users ≡ us = cc in
        rw (← same) (retain-All (selects_user f) s.users));
  list_groups_selects = λ f s gs e.
      (let same : retain (selects_group f) s.groups ≡ gs = cc in
        rw (← same) (retain-All (selects_group f) s.groups));
  user_and = λ s f g u h. ground arith;
  group_and = λ s f g x h. ground arith;
  user_id = λ s i u h. (==_iff u.user.user_id i).0 h;
  member = λ s i g h. h;
}

pub ann-IsPlain : IsPlain ann
unfolding trim to_ascii_lowercase
ann-IsPlain = record {
  no_comma = ground arith;
  no_equals = ground arith;
  trimmed = refl;
  lowered = refl;
}

pub base_plain : All IsPlainRdn info.base_dn
unfolding trim to_ascii_lowercase
base_plain = (
  (
    record { no_comma = ground arith; no_equals = ground arith; trimmed = refl; lowered = refl },
    record { no_comma = ground arith; no_equals = ground arith; trimmed = refl; lowered = refl },
  ),
  tt,
)

pub base_lower : all rdn_is_lower info.base_dn ≡ true
unfolding ◌==◌ to_ascii_lowercase
base_lower = refl

pub bob_ne_ann : (bob == ann) ≡ false
unfolding ◌==◌
bob_ne_ann = refl

-- "uid=ann,ou=people,dc=org"
abbrev pub ann_dn : Str
ann_dn = entry_dn (codes "uid") false ann info.base_dn
