-- ===== src/Server/Create.antt =====
-- server/src/infra/ldap_handler.rs: the creation of a user by an add request.
pub mod Guarded
use lldap.Common.{Bool, true, false, not, Option, none, some, List, [], ◌∷◌, retain, if◌then◌else◌}
use lldap.Common.Result.{Result, ok, err, panic, ok_or, traverse}
use lldap.Common.Result
use lldap.Common.Exec.{Exec, pure, lift, on_error, ◌>>=◌, ◌>>◌}
use lldap.Text.{Str, Bytes, codes, ◌==◌, to_ascii_lowercase}
use lldap.Text.Utf8.{from_utf8}
use lldap.Domain.Types.{External, UserId, JpegPhoto, photo_of_bytes}
use lldap.Domain.Handler.{CreateUserRequest}
use lldap.Domain.Error.{DomainError}
use lldap.Domain.Backend.{Backend}
use lldap.Access.{ValidationResults, get_admin_handler}
use lldap.Ldap.Error.{
  LdapError, LdapResult, LdapResultCode, Message, unauthorized_write, single_value_expected,
  missing_value, invalid_utf8, invalid_jpeg, create_user_failed,
}
use lldap.Ldap.Dn.{get_user_id_from_distinguished_name}
use lldap.Ldap.Fields.{LdapInfo}
use lldap.Ldap.Filter.{LdapPartialAttribute, LdapAddRequest, LdapOp}
use lldap.Server.Session.{make_add_error}

abbrev pub violation : Message → LdapError
violation m = record { code = LdapResultCode.constraint_violation; message = m }

-- A `HashMap` filled in order: the last value of a name counts.
abbrev pub AttributeMap : Type 0
AttributeMap = List (Str × Bytes)

unfoldable pub parse_attribute : Str → List Bytes → LdapResult (Str × Bytes)
parse_attribute atype [] = err (violation (missing_value (to_ascii_lowercase atype)))
parse_attribute atype (val ∷ []) = ok (to_ascii_lowercase atype, val)
parse_attribute atype (val ∷ v ∷ vs) = err (violation (single_value_expected atype))

unfoldable pub parse_attributes : List LdapPartialAttribute → LdapResult AttributeMap
unfolding parse_attribute retain traverse
parse_attributes attributes =
    traverse (λ a. parse_attribute a.atype a.vals)
      (retain (λ a. not (to_ascii_lowercase a.atype == codes "objectclass")) attributes)

abbrev pub later : Option Bytes → Option Bytes → Option Bytes
later (some v) w = some v
later none w = w

unfoldable pub get_attribute : AttributeMap → Str → Option Bytes
get_attribute [] name = none
get_attribute ((k, v) ∷ m) name = later (get_attribute m name) (if k == name then some v else none)

unfoldable pub decode_attribute_value : Bytes → LdapResult Str
decode_attribute_value val = ok_or (violation (invalid_utf8 val)) (from_utf8 val)

-- `get_attribute(name).transpose()?`
unfoldable pub text_attribute : Option Bytes → LdapResult (Option Str)
unfolding decode_attribute_value
text_attribute none = ok none
text_attribute (some val) = Result.map some (decode_attribute_value val)

abbrev pub or_default : Option Str → Str
or_default none = []
or_default (some s) = s

module _ ⦃lib : External⦄ where
  unfoldable pub photo_attribute : Option Bytes → LdapResult (Option JpegPhoto)
  photo_attribute none = ok none
  photo_attribute (some val) = Result.map some (ok_or (violation invalid_jpeg) (photo_of_bytes val))

  -- The request for the backend, its fields read in the order of the source.
  unfoldable pub create_request : UserId → AttributeMap → LdapResult CreateUserRequest
  unfolding text_attribute photo_attribute get_attribute
  create_request user_id m =
      Result.◌>>=◌
        (text_attribute (later (get_attribute m (codes "mail")) (get_attribute m (codes "email"))))
        λ email. Result.◌>>=◌ (text_attribute (get_attribute m (codes "cn"))) λ display_name.
          Result.◌>>=◌ (text_attribute (get_attribute m (codes "givenname"))) λ first_name.
            Result.◌>>=◌ (text_attribute (get_attribute m (codes "sn"))) λ last_name.
              Result.◌>>=◌ (photo_attribute (get_attribute m (codes "avatar"))) λ avatar.
                ok (record {
                  user_id = user_id;
                  email = or_default email;
                  display_name = display_name;
                  first_name = first_name;
                  last_name = last_name;
                  avatar = avatar;
                  attributes = [];
                })

abbrev pub creation_error : DomainError → LdapError
creation_error e = record { code = LdapResultCode.operations_error; message = create_user_failed e }

abbrev pub admin_handler : {S : Type 0} → Backend S → Option ValidationResults → Option (Backend S)
admin_handler backend none = none
admin_handler backend (some u) = get_admin_handler backend u

module _ ⦃lib : External⦄ {S : Type 0} where
  unfoldable pub do_create_user :
      Backend S
      → LdapInfo
      → Option ValidationResults
      → LdapAddRequest
      → Exec S LdapError (List LdapOp)
  unfolding parse_attributes create_request
  do_create_user backend info user_info request = do
    handler ← lift (
        ok_or
          (record { code = LdapResultCode.insufficent_access_rights; message = unauthorized_write })
          (admin_handler backend user_info))
    user_id ← lift (get_user_id_from_distinguished_name request.dn info.base_dn info.base_dn_str)
    attributes ← lift (parse_attributes request.attributes)
    request' ← lift (create_request user_id attributes)
    on_error creation_error (handler.create_user request')
    pure (make_add_error LdapResultCode.success Message.empty ∷ [])
