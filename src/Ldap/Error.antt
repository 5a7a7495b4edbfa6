-- ===== src/Ldap/Error.antt =====
-- server/src/domain/ldap/error.rs. The codes are those of `ldap3_proto::LdapResultCode` that the
-- program names. A message is kept as its template and arguments: its rendering is not modelled.
use lldap.Common.{ℕ, List}
use lldap.Common.Result.{Result}
use lldap.Text.{Str}
use lldap.Domain.Error.{DomainError}
use lldap.Domain.Types.{AttributeName, UserId}
use lldap.Domain.Deserialize.{DeserializeError}

pub data LdapResultCode : Type 0 where
  success operations_error constraint_violation invalid_attribute_syntax : LdapResultCode
  compare_true compare_false no_such_object invalid_dn_syntax : LdapResultCode
  inappropriate_matching invalid_credentials insufficent_access_rights : LdapResultCode
  unwilling_to_perform naming_violation other : LdapResultCode

-- `ldap3_proto::LdapModifyType`, which a message prints.
pub data LdapModifyType : Type 0 where
  add delete replace : LdapModifyType

pub data Message : Type 0 where
  empty : Message
  empty_dn_element missing_dn_value : Message
  too_many_elements : Str → Str → Str → Message
  not_a_subtree : Message
  -- the DN, the organizational unit expected and the base DN
  unexpected_dn_format : Str → Str → Str → Message
  invalid_attribute_value : AttributeName → DeserializeError → Message
  unsupported_substring_filter : AttributeName → Message
  unsupported_filter : Message
  invalid_uuid : Message
  creation_date_unsupported : Message
  user_search_failed group_search_failed : Str → DomainError → Message
  sasl_not_supported : Message
  no_user_bound unauthorized_write : Message
  user_groups_failed schema_failed password_change_failed create_user_failed : DomainError → Message
  opaque_client_failed : Message
  cannot_modify_password : UserId → UserId → Message
  invalid_username : Message → Message
  missing_user_or_password : Message
  unsupported_extended_operation : Str → Message
  unsupported_operation : Message
  unsupported_modification : LdapModifyType → Str → Message
  wrong_number_of_values : ℕ → Message
  single_value_expected missing_value : Str → Message
  invalid_utf8 : List ℕ → Message
  invalid_jpeg : Message
  too_many_search_results no_search_results unexpected_search_results : Message

pub record LdapError : Type 0 where
  pub code : LdapResultCode
  pub message : Message

abbrev pub LdapResult : Type 0 → Type 0
LdapResult A = Result LdapError A
