-- ===== src/Ldap/Filter.antt =====
-- The filters and the operations of `ldap3_proto`, as far as the program builds or inspects them.
use lldap.Common.{ℕ, Option, List}
use lldap.Text.{Str, Bytes}
use lldap.Domain.Handler.{SubStringFilter}
use lldap.Ldap.Error.{LdapModifyType, LdapResultCode, Message}

pub record LdapSubstringFilter : Type 0 where
  pub initial : Option Str
  pub any : List Str
  pub final : Option Str

-- `From<LdapSubstringFilter> for SubStringFilter`
abbrev pub sub_string_filter : LdapSubstringFilter → SubStringFilter
sub_string_filter f = record { initial = f.initial; any = f.any; final = f.final }

-- `unsupported` stands for the kinds of filter that the program refuses without a look inside.
mutual
  pub data LdapFilter : Type 0 where
    and : LdapFilters → LdapFilter
    or : LdapFilters → LdapFilter
    not : LdapFilter → LdapFilter
    equality : Str → Str → LdapFilter
    substring : Str → LdapSubstringFilter → LdapFilter
    present : Str → LdapFilter
    unsupported : ℕ → LdapFilter

  pub data LdapFilters : Type 0 where
    nil : LdapFilters
    cons : LdapFilter → LdapFilters → LdapFilters

pub data LdapSearchScope : Type 0 where
  base one_level subtree children : LdapSearchScope

pub record LdapSearchRequest : Type 0 where
  pub base : Str
  pub scope : LdapSearchScope
  pub filter : LdapFilter
  pub attrs : List Str

pub record LdapPartialAttribute : Type 0 where
  pub atype : Str
  pub vals : List Bytes

pub record LdapSearchResultEntry : Type 0 where
  pub dn : Str
  pub attributes : List LdapPartialAttribute

-- The result of an operation; `referral` is always empty in this program.
pub record LdapResultOp : Type 0 where
  pub code : LdapResultCode
  pub matcheddn : Str
  pub message : Message

pub data LdapBindCred : Type 0 where
  simple : Str → LdapBindCred
  sasl : LdapBindCred

pub record LdapBindRequest : Type 0 where
  pub dn : Str
  pub cred : LdapBindCred

pub record LdapModify : Type 0 where
  pub operation : LdapModifyType
  pub modification : LdapPartialAttribute

pub record LdapModifyRequest : Type 0 where
  pub dn : Str
  pub changes : List LdapModify

pub record LdapPasswordModifyRequest : Type 0 where
  pub user_identity : Option Str
  pub new_password : Option Str

-- An extended request, with what `LdapPasswordModifyRequest::try_from` makes of it.
pub record LdapExtendedRequest : Type 0 where
  pub name : Str
  pub password_modify : Option LdapPasswordModifyRequest

pub record LdapAddRequest : Type 0 where
  pub dn : Str
  pub attributes : List LdapPartialAttribute

pub record LdapCompareRequest : Type 0 where
  pub dn : Str
  pub atype : Str
  pub val : Bytes

-- `other` stands for the operations that the program does not handle.
pub data LdapOp : Type 0 where
  bind_request : LdapBindRequest → LdapOp
  bind_response : LdapResultOp → LdapOp
  unbind_request : LdapOp
  search_request : LdapSearchRequest → LdapOp
  search_result_entry : LdapSearchResultEntry → LdapOp
  search_result_done : LdapResultOp → LdapOp
  modify_request : LdapModifyRequest → LdapOp
  modify_response : LdapResultOp → LdapOp
  add_request : LdapAddRequest → LdapOp
  add_response : LdapResultOp → LdapOp
  compare_request : LdapCompareRequest → LdapOp
  compare_result : LdapResultOp → LdapOp
  extended_request : LdapExtendedRequest → LdapOp
  extended_response : LdapResultOp → LdapOp
  other : ℕ → LdapOp
