-- ===== src/Server/Handler/Bound.antt =====
-- Where the user of a connection comes from.
use lldap.Common.{◌≡◌, refl, Option, none, some}
use lldap.Common.Result.{ok, err, panic, OnOk}
use lldap.Text.{Str, to_ascii_lowercase}
use lldap.Domain.Types.{External, UserId}
use lldap.Domain.Error.{DomainResult}
use lldap.Domain.Backend.{Backend}
use lldap.Access.{ValidationResults, get_permissions_for_user}
use lldap.Ldap.Error.{LdapResult}
use lldap.Ldap.Dn.{get_user_id_from_distinguished_name}
use lldap.Ldap.Fields.{LdapInfo}
use lldap.Ldap.Filter.{LdapBindCred, LdapOp, LdapExtendedRequest, LdapPasswordModifyRequest}
use lldap.Server.Session.{BindOutcome, do_bind, bind_as, finish_bind}
use lldap.Server.Password.{OpaqueClient}
use lldap.Server.Handler.{
  LdapHandler, new, bind_replies, handle_ldap_message, do_extended_request, do_modify_request,
}

module _ ⦃lib : External⦄ {S : Type 0} where
  -- A login that the backend accepted, with the permissions read then.
  pub record Authenticated (backend : Backend S) (v : ValidationResults) : Type 0 where
    pub password : Str
    pub db : S
    pub name : UserId
    pub accepted : backend.bind (record { name = name; password = password }) db ≡ ok tt
    pub permissions : get_permissions_for_user backend name db ≡ ok v

  abbrev IsAuthenticated : Backend S → Option ValidationResults → Type 0
  IsAuthenticated backend none = Unit
  IsAuthenticated backend (some v) = Authenticated backend v

  finish_bind-IsAuthenticated :
      (backend : Backend S) (u : UserId) (p : Str) (before : Option ValidationResults) (s : S)
      → IsAuthenticated backend before
      → OnOk
          (λ o. IsAuthenticated backend o.user_info)
          (finish_bind backend u (backend.bind (record { name = u; password = p }) s) before s)
  unfolding finish_bind
  finish_bind-IsAuthenticated backend u p before s h = go _ refl _ refl
    where
      go :
          (r : DomainResult Unit)
          → backend.bind (record { name = u; password = p }) s ≡ r
          → (q : DomainResult ValidationResults) → get_permissions_for_user backend u s ≡ q
          → OnOk (λ o. IsAuthenticated backend o.user_info) (finish_bind backend u r before s)
      go (ok tt) er (ok v) eq =
          rw eq (record { password = p; db = s; name = u; accepted = er; permissions = eq })
      go (ok tt) er (err e) eq = rw eq tt
      go (ok tt) er panic eq = rw eq tt
      go (err e) er q eq = h
      go panic er q eq = tt

  extended-IsAuthenticated :
      (client : OpaqueClient) (backend : Backend S) (info : LdapInfo) (r : LdapExtendedRequest)
      (p : Option LdapPasswordModifyRequest) (h : LdapHandler S)
      → IsAuthenticated backend h.user_info
      → IsAuthenticated backend (do_extended_request client backend info r p h).1.user_info
  unfolding do_extended_request
  extended-IsAuthenticated client backend info r none h a = a
  extended-IsAuthenticated client backend info r (some p) h a = a

  bind_as-IsAuthenticated :
      (backend : Backend S) (r : LdapResult UserId) (cred : LdapBindCred)
      (before : Option ValidationResults) (s : S)
      → IsAuthenticated backend before
      → OnOk (λ o. IsAuthenticated backend o.user_info) (bind_as backend r cred before s)
  unfolding bind_as
  bind_as-IsAuthenticated backend (err e) cred before s h = h
  bind_as-IsAuthenticated backend panic cred before s h = tt
  bind_as-IsAuthenticated backend (ok u) LdapBindCred.sasl before s h = h
  bind_as-IsAuthenticated backend (ok u) (LdapBindCred.simple p) before s h =
      finish_bind-IsAuthenticated backend u p before s h

  bind_replies-IsAuthenticated :
      (backend : Backend S) (r : LdapResult BindOutcome) (h : LdapHandler S)
      → IsAuthenticated backend h.user_info
      → OnOk (λ o. IsAuthenticated backend o.user_info) r
      → IsAuthenticated backend (bind_replies r h).1.user_info
  bind_replies-IsAuthenticated backend (ok o) h a k = k
  bind_replies-IsAuthenticated backend (err e) h a k = a
  bind_replies-IsAuthenticated backend panic h a k = a

  step-IsAuthenticated :
      (client : OpaqueClient) (backend : Backend S) (info : LdapInfo) (op : LdapOp)
      (h : LdapHandler S)
      → IsAuthenticated backend h.user_info
      → IsAuthenticated backend (handle_ldap_message client backend info op h).1.user_info
  unfolding handle_ldap_message do_modify_request do_bind
  step-IsAuthenticated client backend info (LdapOp.bind_request r) h a =
      let named =
        get_user_id_from_distinguished_name (to_ascii_lowercase r.dn) info.base_dn
          info.base_dn_str in
      bind_replies-IsAuthenticated backend (bind_as backend named r.cred h.user_info h.db) h a
        (bind_as-IsAuthenticated backend named r.cred h.user_info h.db a)
  step-IsAuthenticated client backend info (LdapOp.bind_response r) h a = a
  step-IsAuthenticated client backend info LdapOp.unbind_request h a = tt
  step-IsAuthenticated client backend info (LdapOp.search_request r) h a = a
  step-IsAuthenticated client backend info (LdapOp.search_result_entry r) h a = a
  step-IsAuthenticated client backend info (LdapOp.search_result_done r) h a = a
  step-IsAuthenticated client backend info (LdapOp.modify_request r) h a = a
  step-IsAuthenticated client backend info (LdapOp.modify_response r) h a = a
  step-IsAuthenticated client backend info (LdapOp.add_request r) h a = a
  step-IsAuthenticated client backend info (LdapOp.add_response r) h a = a
  step-IsAuthenticated client backend info (LdapOp.compare_request r) h a = a
  step-IsAuthenticated client backend info (LdapOp.compare_result r) h a = a
  step-IsAuthenticated client backend info (LdapOp.extended_request r) h a =
      extended-IsAuthenticated client backend info r r.password_modify h a
  step-IsAuthenticated client backend info (LdapOp.extended_response r) h a = a
  step-IsAuthenticated client backend info (LdapOp.other n) h a = a

  -- The states of a connection: each message is handled in the state that the last one left, and
  -- between two messages others may change the database.
  pub data Reachable (client : OpaqueClient) (backend : Backend S) (info : LdapInfo)
      : LdapHandler S → Type 0 where
    start : (db : S) → Reachable client backend info (new db)
    message :
        (op : LdapOp) {h : LdapHandler S}
        → Reachable client backend info h
        → Reachable client backend info (handle_ldap_message client backend info op h).1
    elsewhere :
        (db : S) {h : LdapHandler S}
        → Reachable client backend info h
        → Reachable client backend info (record { user_info = h.user_info; db = db })

  Reachable-IsAuthenticated :
      (client : OpaqueClient) (backend : Backend S) (info : LdapInfo) {h : LdapHandler S}
      → Reachable client backend info h
      → IsAuthenticated backend h.user_info
  Reachable-IsAuthenticated c b info (Reachable.start db) = tt
  Reachable-IsAuthenticated c b info (Reachable.message op r) =
      step-IsAuthenticated c b info op _ (Reachable-IsAuthenticated c b info r)
  Reachable-IsAuthenticated c b info (Reachable.elsewhere db r) =
      Reachable-IsAuthenticated c b info r

  -- Whatever messages came before, the user of a connection was accepted by the backend with some
  -- password, and has the permissions that the groups gave it then.
  pub bound_user-Authenticated :
      (client : OpaqueClient) (backend : Backend S) (info : LdapInfo) (v : ValidationResults)
      (db : S)
      → Reachable client backend info (record { user_info = some v; db = db })
      → Authenticated backend v
  bound_user-Authenticated c b info v db r = Reachable-IsAuthenticated c b info r
