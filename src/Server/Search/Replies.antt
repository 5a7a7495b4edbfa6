-- ===== src/Server/Search/Replies.antt =====
-- The replies of a search and of a comparison.
use lldap.Common.{◌≡◌, refl, inl, inr, true, List, [], ◌∷◌, ◌++◌, Bool-cases}
use lldap.Ldap.Filter.{LdapOp}
use lldap.Server.Session.{make_search_success}
use lldap.Server.Search.{ends_done, push_done}

ends_done-snoc : (ops : List LdapOp) → ends_done (ops ++ make_search_success ∷ []) ≡ true
unfolding ends_done
ends_done-snoc [] = refl
ends_done-snoc (op ∷ []) = refl
ends_done-snoc (op ∷ next ∷ ops) = ends_done-snoc (next ∷ ops)

pub ends_done-push_done : (ops : List LdapOp) → ends_done (push_done ops) ≡ true
unfolding push_done
ends_done-push_done ops = elim (Bool-cases (ends_done ops)) [
  | inl e ↦ rw (e, e) refl
  | inr e ↦ rw e (ends_done-snoc ops)
]
