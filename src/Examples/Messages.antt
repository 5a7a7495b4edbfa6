-- ===== src/Examples/Messages.antt =====
-- The theorems on messages, at the directory of the examples.
use lldap.Common.{true, false, inr, ◌≡◌, refl, some, [], ◌∷◌, arith}
use mathlib.Core.List.{flat_map}
use lldap.Common.Result.{ok, panic}
use lldap.Text.{codes, join, ◌==◌, to_ascii_lowercase, split, trim}
use lldap.Text.Utf8.{from_utf8}
use lldap.Domain.Types.{new_case_insensitive}
use lldap.Access.{
  Permission, ValidationResults, can_change_password, can_read, get_admin_handler,
  get_readable_handler, is_admin, get_permissions_for_user, get_permissions_from_groups,
}
use lldap.Domain.Types.Compare.{
  eq_ignore_case, compare_str_case_insensitive, compare_chars, fold_case,
}
use lldap.Ldap.Error.{LdapModifyType, LdapResultCode, Message}
use lldap.Domain.Handler.{CreateUserRequest, BindRequest}
use lldap.Ldap.Dn.{
  get_user_id_from_distinguished_name, get_id_from_distinguished_name, check_entry, is_subtree,
  parse_distinguished_name,
}
use lldap.Ldap.Dn.Parsing.{print_dn}
use lldap.Ldap.Dn.Ids.{get_user_id-entry_dn}
use lldap.Ldap.Filter.{
  LdapOp, LdapModify, LdapAddRequest, LdapSearchScope, LdapFilter, LdapBindCred, LdapBindRequest,
}
use lldap.Server.Session.{make_add_error, do_bind}
use lldap.Server.Password.{
  user_of_dn, read_user_is_admin, do_password_modification, handle_modify_request,
}
use lldap.Server.Password.Panics.{regular_request-panics, upper_name-panics}
use lldap.Server.Create.{do_create_user}
use lldap.Server.Create.Guarded.{create_user-by_admin}
use lldap.Server.Handler.Privileges.{non_admin-keeps}
use lldap.Server.Password.Allowed.{IsRefused, password-IsRefused}
use lldap.Common.{sym, ap, ◌∙◌}
use lldap.Server.Handler.{new, new_info, handle_ldap_message}
use lldap.Server.Handler.Unbound.{unbound-unchanged, unbound-blind}
use lldap.Server.Handler.Bound.{Reachable, Authenticated, bound_user-Authenticated}
use lldap.Server.Handler.Answers.{Answers, AnswersBind, handle_ldap_message-AnswersBind}
use lldap.Examples.World.{
  ascii, Directory, account, ann, bob, ann_dn, ann-IsPlain, base_plain, base_lower, bob_ne_ann,
  client, directory, has, info, memory,
}

abbrev manager : ValidationResults
manager = has bob Permission.password_manager

ann_is_read : user_of_dn info ann_dn ≡ ok ann
ann_is_read =
    rw
      (get_user_id-entry_dn (codes "uid") ann info.base_dn info.base_dn_str (inr refl) ann-IsPlain
        base_plain)
      refl

ann_is_admin : read_user_is_admin memory manager ann directory ≡ (ok true, directory)
unfolding read_user_is_admin get_readable_handler can_read eq_ignore_case ◌==◌
    compare_str_case_insensitive compare_chars fold_case flat_map
ann_is_admin = refl

regular_request-panics_example :
    (do_password_modification client memory info
        (some (has bob Permission.regular))
        (record { user_identity = some ann_dn; new_password = some (codes "x") })
        directory
      ≡ (panic, directory))
    × (handle_modify_request client memory info
          (some (has bob Permission.regular))
          (record { dn = ann_dn; changes = [] })
          directory
        ≡ (panic, directory))
regular_request-panics_example =
    regular_request-panics client memory info (has bob Permission.regular) ann_dn (codes "x") [] ann
      directory refl ann_is_read bob_ne_ann

bob_is_upper : (codes "UID=bob" == to_ascii_lowercase (codes "UID=bob")) ≡ false
unfolding ◌==◌ to_ascii_lowercase
bob_is_upper = refl

upper_name-panics_example :
    (do_password_modification client memory info
        (some (has ann Permission.admin))
        (record { user_identity = some (codes "UID=bob"); new_password = some (codes "x") })
        directory
      ≡ (panic, directory))
    × (handle_modify_request client memory info
          (some (has ann Permission.admin))
          (record { dn = codes "UID=bob"; changes = [] })
          directory
        ≡ (panic, directory))
upper_name-panics_example =
    upper_name-panics client memory info (has ann Permission.admin) (codes "UID=bob") (codes "x") []
      directory bob_is_upper

manager_denied : can_change_password manager ann true ≡ false
unfolding can_change_password ◌==◌
manager_denied = refl

abbrev replace_password : LdapModify
replace_password = record {
  operation = LdapModifyType.replace;
  modification = record { atype = codes "userPassword"; vals = codes "x" ∷ [] };
}

abbrev add_ann : LdapAddRequest
add_ann = record {
  dn = ann_dn;
  attributes = record { atype = codes "mail"; vals = codes "a@b" ∷ [] } ∷ [];
}

manager_no_admin : is_admin manager ≡ false
unfolding is_admin
manager_no_admin = refl

-- The directory with one more entry for the name.
abbrev grown : Directory
grown = record {
  users = account ann ∷ directory.users;
  groups = directory.groups;
  password = directory.password;
}

added :
    do_create_user memory info (some (has ann Permission.admin)) add_ann directory
    ≡ (ok (make_add_error LdapResultCode.success Message.empty ∷ []), grown)
unfolding do_create_user is_admin get_admin_handler ◌==◌ to_ascii_lowercase from_utf8
added =
    rw
      (get_user_id-entry_dn (codes "uid") ann info.base_dn info.base_dn_str (inr refl) ann-IsPlain
        base_plain)
      refl

create_user-by_admin_example :
    (v : ValidationResults) × (created : CreateUserRequest) × (some (has ann Permission.admin)
      ≡ some v)
    × (is_admin v ≡ true)
    × (get_user_id_from_distinguished_name ann_dn info.base_dn info.base_dn_str
        ≡ ok created.user_id)
    × (memory.create_user created directory ≡ (ok tt, grown))
create_user-by_admin_example =
    create_user-by_admin memory info (some (has ann Permission.admin)) add_ann directory grown
      (make_add_error LdapResultCode.success Message.empty ∷ []) added

abbrev search : LdapOp
search = LdapOp.search_request (record {
  base = codes "dc=org";
  scope = LdapSearchScope.subtree;
  filter = LdapFilter.present (codes "uid");
  attrs = [];
})

unbound-unchanged_example :
    (handle_ldap_message client memory info (LdapOp.add_request add_ann) (new directory)).1
    ≡ new directory
unbound-unchanged_example =
    unbound-unchanged client memory info (LdapOp.add_request add_ann) directory refl

unbound-blind_example :
    (handle_ldap_message client memory info search (new directory)).0
    ≡ (handle_ldap_message client memory info search (new grown)).0
unbound-blind_example = unbound-blind client client memory memory info search directory grown refl

abbrev login : LdapBindRequest
login = record { dn = ann_dn; cred = LdapBindCred.simple (codes "secret") }

-- The state after the administrator's login.
logged_in :
    (handle_ldap_message client memory info (LdapOp.bind_request login) (new directory)).1
    ≡ record { user_info = some (has ann Permission.admin); db = directory }
unfolding handle_ldap_message do_bind get_user_id_from_distinguished_name
    get_id_from_distinguished_name parse_distinguished_name ◌==◌ to_ascii_lowercase print_dn join
    get_permissions_for_user get_permissions_from_groups eq_ignore_case compare_str_case_insensitive
    compare_chars fold_case flat_map split check_entry is_subtree trim new_case_insensitive
logged_in = refl

bound_is_Reachable :
    Reachable client memory info
      (record { user_info = some (has ann Permission.admin); db = directory })
bound_is_Reachable =
    let reached : Reachable client memory info
        (handle_ldap_message client memory info (LdapOp.bind_request login) (new directory)).1 =
      Reachable.message (LdapOp.bind_request login) (Reachable.start directory) in
    rw logged_in at reached

bound_user-Authenticated_example : Authenticated memory (has ann Permission.admin)
bound_user-Authenticated_example =
    bound_user-Authenticated client memory info (has ann Permission.admin) directory
      bound_is_Reachable

bind-Answers : (q : BindRequest) → Answers (memory.bind q directory)
bind-Answers q = ground arith

handle_ldap_message-AnswersBind_example :
    AnswersBind memory info login
      (new directory)
      (handle_ldap_message client memory info (LdapOp.bind_request login) (new directory))
handle_ldap_message-AnswersBind_example =
    handle_ldap_message-AnswersBind client memory info login (new directory) base_lower bind-Answers
      (λ u. tt)

org_info : new_info (codes "DC=Org") [] [] ≡ ok info
unfolding new_info parse_distinguished_name ◌==◌ to_ascii_lowercase split trim
org_info = refl

non_admin-keeps_example :
    (handle_ldap_message client memory info
      (LdapOp.add_request add_ann)
      (record { user_info = some manager; db = directory })).1.db
    ≡ directory
non_admin-keeps_example =
    non_admin-keeps client memory info (LdapOp.add_request add_ann) manager directory
      manager_no_admin refl

ann-IsRefused : IsRefused memory info manager ann_dn directory
unfolding can_change_password ◌==◌
ann-IsRefused uid a named read =
    let same : ann ≡ uid = (let both = sym ann_is_read ∙ named in cc) in
    let known : (read_user_is_admin memory manager ann directory).0 ≡ ok a = rw (← same) at read in
    let admin : true ≡ a = (let both = sym (ap (λ r. r.0) ann_is_admin) ∙ known in cc) in
    rw (← same, ← admin) refl

password-IsRefused_example :
    ((do_password_modification client memory info
        (some manager)
        (record { user_identity = some ann_dn; new_password = some (codes "x") })
        directory).1
      ≡ directory)
    × ((handle_modify_request client memory info
          (some manager)
          (record { dn = ann_dn; changes = replace_password ∷ [] })
          directory).1
        ≡ directory)
password-IsRefused_example =
    password-IsRefused client memory info manager ann_dn (some (codes "x")) (replace_password ∷ [])
      directory ann-IsRefused
