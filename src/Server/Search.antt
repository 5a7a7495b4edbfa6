-- ===== src/Server/Search.antt =====
-- server/src/infra/ldap_handler.rs: searches.
pub mod Replies
pub mod Found
pub mod Totality
pub mod Confined
pub mod Entries
use lldap.Common.{
  ℕ, ◌+◌, Bool, true, false, ◌&&◌, Option, none, some, List, [], ◌∷◌, ◌++◌, any, length, nat_eq,
  ltb, String, if◌then◌else◌,
}
use lldap.Common.Result.{Result, ok, err, panic, ◌>>=◌, map_err, ok_or}
use lldap.Text.{Str, Bytes, codes, ◌==◌, to_ascii_lowercase}
use lldap.Text.Utf8.{into_bytes}
use lldap.Domain.Types.{External, UserId, Group, UserAndGroups}
use lldap.Domain.Backend.{Backend}
use lldap.Domain.Schema.{PublicSchema, public_schema}
use lldap.Access.{
  ValidationResults, RestrictedLister, get_user_restricted_lister_handler, lister_get_schema,
}
use lldap.Ldap.Error.{
  LdapError, LdapResult, LdapResultCode, Message, schema_failed, too_many_search_results,
  no_search_results, unexpected_search_results,
}
use lldap.Ldap.Dn.{DnParts, Rdn, rdn_eq, is_subtree, is_empty, parse_distinguished_name}
use lldap.Ldap.Fields.{LdapInfo}
use lldap.Ldap.Filter.{
  LdapFilter, LdapFilters, LdapSearchScope, LdapSearchRequest, LdapSearchResultEntry,
  LdapPartialAttribute, LdapCompareRequest, LdapResultOp, LdapOp,
}
use lldap.Ldap.User.{convert_users_to_ldap_op}
use lldap.Ldap.UserFilter.{get_user_list}
use lldap.Ldap.Group.{convert_groups_to_ldap_op}
use lldap.Ldap.GroupFilter.{get_groups_list}
use lldap.Server.Session.{not_bound, make_search_error, make_search_success}
use lldap.Server.Scope.{SearchScope, is_base, get_search_scope}

pub data InternalSearchResults : Type 0 where
  users_and_groups : List UserAndGroups → List Group → InternalSearchResults
  raw : List LdapOp → InternalSearchResults
  empty : InternalSearchResults

-- The four cases of a search of the whole tree: one half may fail.
unfoldable pub join_results :
    LdapResult (List UserAndGroups) → LdapResult (List Group) → LdapResult InternalSearchResults
join_results panic gs = panic
join_results (ok us) panic = panic
join_results (err e) panic = panic
join_results (ok us) (err e) = ok (users_and_groups us [])
join_results (err e) (ok gs) = ok (users_and_groups [] gs)
join_results (err user_error) (err e) =
    ok (raw (make_search_error user_error.code user_error.message ∷ []))
join_results (ok us) (ok gs) = ok (users_and_groups us gs)

abbrev pub ou_entry : Str → LdapOp
ou_entry base = LdapOp.search_result_entry (record {
  dn = base;
  attributes =
      record { atype = codes "objectClass"; vals = codes "top" ∷ codes "organizationalUnit" ∷ [] }
      ∷ [];
})

abbrev pub both : LdapFilter → LdapFilter → LdapFilter
both f g = LdapFilter.and (LdapFilters.cons f (LdapFilters.cons g LdapFilters.nil))

abbrev pub needs_groups : LdapSearchRequest → Bool
needs_groups request = any (λ s. to_ascii_lowercase s == codes "memberof") request.attrs

module _ ⦃lib : External⦄ {S : Type 0} where
  unfoldable pub user_results :
      LdapInfo
      → RestrictedLister S
      → LdapSearchRequest
      → PublicSchema
      → S
      → LdapFilter
      → LdapResult (List UserAndGroups)
  user_results info lister request schema s filter =
      get_user_list info filter (needs_groups request) request.base lister schema s

  unfoldable pub group_results :
      LdapInfo
      → RestrictedLister S
      → LdapSearchRequest
      → PublicSchema
      → S
      → LdapFilter
      → LdapResult (List Group)
  group_results info lister request schema s filter =
      get_groups_list info filter request.base lister schema s

  -- The `match` of `do_search_internal`, on the scope.
  unfoldable pub search_in :
      SearchScope
      → LdapInfo
      → RestrictedLister S
      → LdapSearchRequest
      → PublicSchema
      → S
      → LdapResult InternalSearchResults
  unfolding user_results group_results join_results
  search_in SearchScope.global info lister request schema s =
      join_results (user_results info lister request schema s request.filter)
        (group_results info lister request schema s request.filter)
  search_in SearchScope.users info lister request schema s = do
    us ← user_results info lister request schema s request.filter
    ok (users_and_groups us [])
  search_in SearchScope.groups info lister request schema s = do
    gs ← group_results info lister request schema s request.filter
    ok (users_and_groups [] gs)
  search_in (SearchScope.user filter) info lister request schema s = do
    us ← user_results info lister request schema s (both request.filter filter)
    ok (users_and_groups us [])
  search_in (SearchScope.group filter) info lister request schema s = do
    gs ← group_results info lister request schema s (both request.filter filter)
    ok (users_and_groups [] gs)
  search_in SearchScope.user_ou_only info lister request schema s =
      ok (raw (ou_entry request.base ∷ []))
  search_in SearchScope.group_ou_only info lister request schema s =
      ok (raw (ou_entry request.base ∷ []))
  search_in SearchScope.unknown info lister request schema s = ok empty
  search_in SearchScope.invalid info lister request schema s = ok empty

  unfoldable pub do_search_internal :
      LdapInfo
      → RestrictedLister S
      → LdapSearchRequest
      → PublicSchema
      → S
      → LdapResult InternalSearchResults
  unfolding search_in get_search_scope
  do_search_internal info lister request schema s = do
    dn_parts ← parse_distinguished_name (to_ascii_lowercase request.base)
    scope ← get_search_scope info.base_dn dn_parts request.scope
    search_in scope info lister request schema s

module _ ⦃lib : External⦄ where
  -- The entries of the results.
  unfoldable pub results_to_ops :
      InternalSearchResults
      → LdapInfo
      → Option UserId
      → List Str
      → PublicSchema
      → LdapResult (List LdapOp)
  results_to_ops (users_and_groups us gs) info user_filter attrs schema = do
    user_ops ← convert_users_to_ldap_op us attrs info schema
    group_ops ← convert_groups_to_ldap_op gs attrs info user_filter schema
    ok (user_ops ++ group_ops)
  results_to_ops (raw ops) info user_filter attrs schema = ok ops
  results_to_ops empty info user_filter attrs schema = ok []

-- Whether the last reply is a `SearchResultDone`.
unfoldable pub ends_done : List LdapOp → Bool
ends_done [] = false
ends_done (LdapOp.search_result_done r ∷ []) = true
ends_done (op ∷ []) = false
ends_done (op ∷ next ∷ ops) = ends_done (next ∷ ops)

unfoldable pub push_done : List LdapOp → List LdapOp
push_done ops = if ends_done ops then ops else ops ++ make_search_success ∷ []

abbrev pub attribute_of : String → List Bytes → LdapPartialAttribute
attribute_of atype vals = record { atype = codes atype; vals = vals }

-- `concat!("lldap_", env!("CARGO_PKG_VERSION"))`, the version of server/Cargo.toml.
unfoldable pub root_dse_response : Str → LdapOp
root_dse_response base_dn = LdapOp.search_result_entry (record {
  dn = [];
  attributes =
      attribute_of "objectClass" (codes "top" ∷ [])
      ∷ attribute_of "vendorName" (codes "LLDAP" ∷ [])
      ∷ attribute_of "vendorVersion" (codes "lldap_0.5.1-alpha" ∷ [])
      ∷ attribute_of "supportedLDAPVersion" (codes "3" ∷ [])
      ∷ attribute_of "supportedExtension" (codes "1.3.6.1.4.1.4203.1.11.1" ∷ [])
      ∷ attribute_of "supportedControl" []
      ∷ attribute_of "supportedFeatures" (codes "1.3.6.1.4.1.4203.1.5.1" ∷ [])
      ∷ attribute_of "defaultNamingContext" (into_bytes base_dn ∷ [])
      ∷ attribute_of "namingContexts" (into_bytes base_dn ∷ [])
      ∷ attribute_of "isGlobalCatalogReady" (codes "false" ∷ [])
      ∷ [];
})

abbrev pub asks_object_class : LdapFilter → Bool
asks_object_class (LdapFilter.present attribute) =
    to_ascii_lowercase attribute == codes "objectclass"
asks_object_class _ = false

module _ ⦃lib : External⦄ {S : Type 0} where
  unfoldable pub do_search :
      Backend S
      → LdapInfo
      → Option ValidationResults
      → LdapSearchRequest
      → S
      → LdapResult (List LdapOp)
  unfolding results_to_ops push_done do_search_internal
  do_search backend info user_info request s = do
    bound ← ok_or not_bound user_info
    let lister = get_user_restricted_lister_handler backend bound
    full ←
        map_err (λ e. record { code = LdapResultCode.operations_error; message = schema_failed e })
          (lister_get_schema lister s)
    let schema = public_schema full
    found ← do_search_internal info lister request schema s
    ops ← results_to_ops found info lister.user_filter request.attrs schema
    ok (push_done ops)

  unfoldable pub do_search_or_dse :
      Backend S
      → LdapInfo
      → Option ValidationResults
      → LdapSearchRequest
      → S
      → LdapResult (List LdapOp)
  unfolding do_search
  do_search_or_dse backend info user_info request s =
      if is_empty request.base && is_base request.scope && asks_object_class request.filter
      then ok (root_dse_response info.base_dn_str ∷ make_search_success ∷ [])
      else do_search backend info user_info request s
