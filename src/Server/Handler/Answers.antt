-- ===== src/Server/Handler/Answers.antt =====
-- What a message is answered with, and the binds.
use lldap.Common.{◌≡◌, refl, ◌⊎◌, inl, inr, true, Option, some, List, [], ◌∷◌, all}
use lldap.Common.Result.{
  Result, ok, err, panic, Returns, Ends, Ends-bind, OnOk, OnOk-elim, >>=-eq-ok,
}
use lldap.Text.{Str, to_ascii_lowercase}
use lldap.Text.Laws.{to_ascii_lowercase_idem}
use lldap.Domain.Types.{External, UserId, AttributeName}
use lldap.Domain.Error.{DomainResult}
use lldap.Domain.Backend.{Backend}
use lldap.Domain.Handler.{BindRequest}
use lldap.Access.{ValidationResults, get_permissions_for_user}
use lldap.Ldap.Error.{LdapError, LdapResult, LdapResultCode}
use lldap.Ldap.Dn.{
  get_user_id_from_distinguished_name, rdn_is_lower, DnParts, parse_distinguished_name,
}
use lldap.Ldap.Dn.Totality.{get_user_id-Ends, parse-Ends}
use lldap.Ldap.Fields.{LdapInfo}
use lldap.Ldap.Filter.{LdapBindRequest, LdapBindCred, LdapOp}
use lldap.Server.Handler.{LdapHandler, bind_replies, handle_ldap_message, new_info, expect_base}
use lldap.Server.Session.{BindOutcome, do_bind, bind_as, finish_bind, bound_as, result_op}
use lldap.Server.Password.{OpaqueClient}

-- A call of the backend that returns or fails, and does not panic.
abbrev pub Answers : {A : Type 0} → DomainResult A → Type 0
Answers r = Ends (λ _. Unit {0}) r

-- The codes of a bind that is refused.
abbrev pub IsRefusal : LdapResultCode → Type 0
IsRefusal LdapResultCode.invalid_credentials = Unit
IsRefusal LdapResultCode.unwilling_to_perform = Unit
IsRefusal LdapResultCode.naming_violation = Unit
IsRefusal _ = ⊥

-- The backend accepts the id that was read from a name, with the password of the request.
abbrev pub Accepted : {S : Type 0} → Backend S → LdapResult UserId → LdapBindCred → S → Type 0
Accepted backend named cred s =
    (u : UserId) × (p : Str) × (named ≡ ok u)
    × (cred ≡ LdapBindCred.simple p)
    × (backend.bind (record { name = u; password = p }) s ≡ ok tt)

-- What the outcome of a bind says, for the id read from its name: a success, that the backend accepts
-- that id with the password; a refusal, that it does not, and that the user bound before is kept.
abbrev pub Explains :
    {S : Type 0}
    → Backend S
    → LdapResult UserId
    → LdapBindCred
    → Option ValidationResults
    → S
    → BindOutcome
    → Type 0
Explains backend named cred before s o =
    ((o.code ≡ LdapResultCode.success) × Accepted backend named cred s)
    ⊎ (IsRefusal o.code × (o.user_info ≡ before) × (¬ Accepted backend named cred s))

bound_as-Returns :
    (P : BindOutcome → Type 0) (r : DomainResult ValidationResults)
    → Answers r
    → ((o : BindOutcome) → o.code ≡ LdapResultCode.success → P o)
    → Returns P (bound_as r)
bound_as-Returns P (ok v) h k = k _ refl
bound_as-Returns P (err e) h k = k _ refl
bound_as-Returns P panic h k = h

module _ ⦃lib : External⦄ {S : Type 0} where
  get_permissions-Ends :
      (backend : Backend S) (u : UserId) (s : S)
      → Answers (backend.get_user_groups u s)
      → Answers (get_permissions_for_user backend u s)
  unfolding get_permissions_for_user
  get_permissions-Ends backend u s h =
      Ends-bind (λ _. Unit {0}) _ (backend.get_user_groups u s) _ h (λ g _. tt)

  finish_bind-Explains :
      (backend : Backend S) (u : UserId) (p : Str) (r : DomainResult Unit)
      (before : Option ValidationResults) (s : S)
      → backend.bind (record { name = u; password = p }) s ≡ r
      → Answers r
      → Answers (backend.get_user_groups u s)
      → Returns
          (Explains backend (ok u) (LdapBindCred.simple p) before s)
          (finish_bind backend u r before s)
  unfolding finish_bind
  finish_bind-Explains backend u p (ok _) before s e h g =
      bound_as-Returns (Explains backend (ok u) (LdapBindCred.simple p) before s) _
        (get_permissions-Ends backend u s g) λ o k. inl (k, (u, p, refl, refl, e))
  finish_bind-Explains backend u p (err c) before s e h g =
      inr (tt, refl, λ (v, q, same, cred, accepted). cc)
  finish_bind-Explains backend u p panic before s e h g = h

  bind_as-Explains :
      (backend : Backend S) (named : LdapResult UserId) (cred : LdapBindCred)
      (before : Option ValidationResults) (s : S)
      → ((q : BindRequest) → Answers (backend.bind q s))
      → ((u : UserId) → Answers (backend.get_user_groups u s))
      → Ends (λ _. Unit {0}) named
      → Returns (Explains backend named cred before s) (bind_as backend named cred before s)
  unfolding bind_as
  bind_as-Explains backend (ok u) (LdapBindCred.simple p) before s hb hg h =
      finish_bind-Explains backend u p _ before s refl (hb _) (hg u)
  bind_as-Explains backend (ok u) LdapBindCred.sasl before s hb hg h =
      inr (tt, refl, λ (v, q, same, cred, accepted). cc)
  bind_as-Explains backend (err e) cred before s hb hg h =
      inr (tt, refl, λ (v, q, same, right, accepted). cc)
  bind_as-Explains backend panic cred before s hb hg h = h

  -- The one reply of a bind, and the user of the connection after it.
  abbrev pub AnswersBind :
      Backend S
      → LdapInfo
      → LdapBindRequest
      → LdapHandler S
      → Result LdapError (Option (List LdapOp)) × LdapHandler S
      → Type 0
  AnswersBind backend info request h answer =
      (o : BindOutcome) × (answer ≡ (
        ok (some (LdapOp.bind_response (result_op o.code o.message) ∷ [])),
        record { user_info = o.user_info; db = h.db },
      ))
      × Explains backend
          (get_user_id_from_distinguished_name (to_ascii_lowercase request.dn) info.base_dn
            info.base_dn_str)
          request.cred h.user_info h.db o

  answered :
      (P : BindOutcome → Type 0) (r : LdapResult BindOutcome) (h : LdapHandler S)
      → Returns P r
      → (o : BindOutcome) × (bind_replies r h ≡ (
        ok (some (LdapOp.bind_response (result_op o.code o.message) ∷ [])),
        record { user_info = o.user_info; db = h.db },
      ))
        × P o
  answered P (ok o) h k = (o, refl, k)
  answered P (err e) h k = absurd k
  answered P panic h k = absurd k

  -- Over a lower-case base and a backend that answers, a bind message gets exactly one reply, whatever
  -- its name, and leaves the database as it was. The reply is a success when an id is read from the
  -- name and the backend accepts it with the password of the request; otherwise it is a refusal, and
  -- the user bound before is kept.
  pub handle_ldap_message-AnswersBind :
      (client : OpaqueClient) (backend : Backend S) (info : LdapInfo) (request : LdapBindRequest)
      (h : LdapHandler S)
      → all rdn_is_lower info.base_dn ≡ true
      → ((q : BindRequest) → Answers (backend.bind q h.db))
      → ((u : UserId) → Answers (backend.get_user_groups u h.db))
      → AnswersBind backend info request h
          (handle_ldap_message client backend info (LdapOp.bind_request request) h)
  unfolding handle_ldap_message do_bind
  handle_ldap_message-AnswersBind client backend info request h hl hb hg =
      let named : LdapResult UserId =
        get_user_id_from_distinguished_name (to_ascii_lowercase request.dn) info.base_dn
          info.base_dn_str in
      answered (Explains backend named request.cred h.user_info h.db)
        (bind_as backend named request.cred h.user_info h.db) h
        (bind_as-Explains backend named request.cred h.user_info h.db hb hg (
          get_user_id-Ends (to_ascii_lowercase request.dn) info.base_dn info.base_dn_str
            (to_ascii_lowercase_idem request.dn) hl))

expect_base-OnOk :
    (P : DnParts → Type 0) (r : LdapResult DnParts) → Ends P r → OnOk P (expect_base r)
expect_base-OnOk P (ok parts) h = h
expect_base-OnOk P (err e) h = tt
expect_base-OnOk P panic h = tt

-- The handler that the constructor makes has a lower-case base, whatever the configuration says.
pub new_info-lower :
    (base : Str) (ignored_user ignored_group : List AttributeName) (info : LdapInfo)
    → new_info base ignored_user ignored_group ≡ ok info
    → (all rdn_is_lower info.base_dn ≡ true)
      × (to_ascii_lowercase info.base_dn_str ≡ info.base_dn_str)
unfolding new_info
new_info-lower base iu ig info h =
    let (parts, e, k) =
      >>=-eq-ok (expect_base (parse_distinguished_name (to_ascii_lowercase base))) _ h in
    let lower : all rdn_is_lower parts ≡ true =
      OnOk-elim _ _ parts
        (expect_base-OnOk _ (parse_distinguished_name (to_ascii_lowercase base))
          (parse-Ends (to_ascii_lowercase base) (to_ascii_lowercase_idem base)))
        e in
    let same : parts ≡ info.base_dn = cc in
    let text : to_ascii_lowercase base ≡ info.base_dn_str = cc in
    (rw (← same) lower, rw (← text) (to_ascii_lowercase_idem base))
