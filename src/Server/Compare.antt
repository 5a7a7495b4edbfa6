-- ===== src/Server/Compare.antt =====
-- server/src/infra/ldap_handler.rs: comparisons.
use lldap.Common.{Bool, ◌&&◌, Option, List, [], ◌∷◌, any, length, ltb, if◌then◌else◌}
use lldap.Common.Result.{ok, err, ◌>>=◌}
use lldap.Text.{Str, codes, ◌==◌}
use lldap.Domain.Types.{External}
use lldap.Domain.Backend.{Backend}
use lldap.Access.{ValidationResults}
use lldap.Ldap.Error.{
  LdapError, LdapResult, LdapResultCode, Message, too_many_search_results, no_search_results,
  unexpected_search_results,
}
use lldap.Ldap.Fields.{LdapInfo}
use lldap.Ldap.Filter.{
  LdapFilter, LdapSearchScope, LdapSearchRequest, LdapPartialAttribute, LdapCompareRequest, LdapOp,
}
use lldap.Server.Search.{do_search}

abbrev pub make_search_request : Str → LdapFilter → List Str → LdapSearchRequest
make_search_request base filter attrs = record {
  base = base;
  scope = LdapSearchScope.subtree;
  filter = filter;
  attrs = attrs;
}

abbrev pub search_failure : Message → LdapError
search_failure m = record { code = LdapResultCode.operations_error; message = m }

-- Whether an entry has the value for the attribute, spelled as in the request.
unfoldable pub has_value : LdapCompareRequest → List LdapPartialAttribute → Bool
has_value request attributes =
    any (λ a. a.atype == request.atype && any (λ v. v == request.val) a.vals) attributes

abbrev pub compare_result : LdapResultCode → Str → LdapOp
compare_result code dn =
    LdapOp.compare_result (record { code = code; matcheddn = dn; message = Message.empty })

-- The `match` on the first reply of the search.
unfoldable pub compare_reply :
    LdapInfo → LdapCompareRequest → List LdapOp → LdapResult (List LdapOp)
unfolding has_value
compare_reply info request [] = err (search_failure no_search_results)
compare_reply info request (LdapOp.search_result_entry entry ∷ ops) = ok (
    compare_result
      (if has_value request entry.attributes
        then LdapResultCode.compare_true
        else LdapResultCode.compare_false)
      request.dn
    ∷ [])
compare_reply info request (LdapOp.search_result_done r ∷ ops) =
    ok (compare_result LdapResultCode.no_such_object info.base_dn_str ∷ [])
compare_reply info request (op ∷ ops) = err (search_failure unexpected_search_results)

module _ ⦃lib : External⦄ {S : Type 0} where
  unfoldable pub do_compare :
      Backend S
      → LdapInfo
      → Option ValidationResults
      → LdapCompareRequest
      → S
      → LdapResult (List LdapOp)
  unfolding do_search compare_reply
  do_compare backend info user_info request s = do
    entries ←
        do_search backend info user_info
          (make_search_request info.base_dn_str (LdapFilter.equality (codes "dn") request.dn)
            (request.atype ∷ []))
          s
    if ltb 2 (length entries)
        then err (search_failure too_many_search_results)
        else compare_reply info request entries
