-- ===== src/Auth/Logout.antt =====
-- What a logout means for the tokens of the user (server/src/infra/auth_service.rs).
use mathlib.Core.Path.{subst}
use lldap.Common.{
  ℕ, ◌≡◌, refl, ap, sym, ◌∙◌, inl, inr, true, Option, List, ◌++◌, any-append, nat_eq, Bool-cases,
  Option-cases, ltb,
}
use lldap.Common.Result.{Result, ok, err, map_err-eq-ok}
use lldap.Common.Exec.{Exec, continue-eq-ok, >>=-returned}
use lldap.Text.{Str}
use lldap.Domain.Types.{External, UserId}
use lldap.Domain.Backend.{Backend}
use lldap.Domain.Error.{DomainError}
use lldap.Auth.{
  JwtLibrary, domain_error, JwtClaims, AlgorithmType, hs512, other, TcpBackend, AppState,
}
use lldap.Auth.Service.{
  Cookie, TokenError, invalid_jwt, expired_jwt, unsupported_algorithm, logged_out,
  check_if_token_is_valid, check_claims, contains, call, get_refresh_token,
}
use lldap.Auth.Handlers.{log_out, get_logout}

-- The tokens that the table has for a user: the query of a logout returns them all.
pub record TokenLaws {S : Type 0} (tcp : TcpBackend S) : Type 1 where
  pub Registered : UserId → ℕ → S → Type 0
  pub after_delete :
      (u : UserId) (h r : ℕ) (s t : S)
      → Registered u h s
      → tcp.delete_refresh_token r s ≡ (ok tt, t)
      → Registered u h t
  pub blacklists :
      (u : UserId) (h : ℕ) (hs : List ℕ) (s t : S)
      → Registered u h s
      → tcp.blacklist_jwts u s ≡ (ok hs, t)
      → contains h hs ≡ true

-- The token is refused: it has no permissions.
abbrev pub IsRefused : {A : Type 0} → Result TokenError A → Type 0
IsRefused r = (e : TokenError) × (r ≡ err e)

-- A call of the backend that returned changed the database only.
call-returned :
    {S A : Type 0} (m : Exec S DomainError A) (before after : AppState S) (a : A)
    → call m before ≡ (ok a, after)
    → (m before.db ≡ (ok a, after.db)) × (after.jwt_blacklist ≡ before.jwt_blacklist)
call-returned m before after a h =
    let e : (m before.db).0 ≡ ok a = map_err-eq-ok domain_error (m before.db).0 (ap (λ p. p.0) h) in
    let d : (m before.db).1 ≡ after.db = ap (λ p. p.1.db) h in
    (ap (λ r. (r, (m before.db).1)) e ∙ ap (λ t. (ok a, t)) d, sym (ap (λ p. p.1.jwt_blacklist) h))

module _ ⦃lib : External⦄ (jwt : JwtLibrary) {S : Type 0} where
  claims-IsRefused :
      (state : AppState S) (token : Str) (algorithm : AlgorithmType) (claims : JwtClaims)
      → contains (jwt.default_hash token) state.jwt_blacklist ≡ true
      → IsRefused (check_claims jwt state token (algorithm, claims))
  unfolding check_claims
  claims-IsRefused state token hs512 claims h = elim (Bool-cases (ltb claims.exp jwt.now)) [
    | inl expired ↦ rw expired (expired_jwt, refl)
    | inr fresh ↦ rw (fresh, h) (logged_out, refl)
  ]
  claims-IsRefused state token other claims h = elim (Bool-cases (ltb claims.exp jwt.now)) [
    | inl expired ↦ rw expired (expired_jwt, refl)
    | inr fresh ↦ rw fresh (unsupported_algorithm, refl)
  ]

  blacklisted-IsRefused :
      (state : AppState S) (token : Str)
      → contains (jwt.default_hash token) state.jwt_blacklist ≡ true
      → IsRefused (check_if_token_is_valid jwt state token)
  unfolding check_if_token_is_valid
  blacklisted-IsRefused state token h = elim (Option-cases (jwt.verify_with_key token)) [
    | inl e ↦ rw (e, check_if_token_is_valid) (invalid_jwt, refl)
    | inr (t, e) ↦ rw (e, check_if_token_is_valid) (claims-IsRefused state token t.0 t.1 h)
  ]

  module _ (tcp : TcpBackend S) (backend : Backend S) (path : Str) where
    -- The hashes that a logout adds, and the state that it leaves.
    record LoggedOut (u : UserId) (before after : AppState S) : Type 0 where
      pub hashes : List ℕ
      pub middle : S
      pub refresh_hash : ℕ
      pub deleted : tcp.delete_refresh_token refresh_hash before.db ≡ (ok tt, middle)
      pub listed : tcp.blacklist_jwts u middle ≡ (ok hashes, after.db)
      pub grown : after.jwt_blacklist ≡ hashes ++ before.jwt_blacklist

    log_out-LoggedOut :
        (r : ℕ) (u : UserId) (before after : AppState S) (cookies : List Cookie)
        → log_out jwt tcp backend path r u before ≡ (ok cookies, after)
        → LoggedOut u before after
    unfolding log_out
    log_out-LoggedOut r u before after cookies h =
        let (_, middle, e1, h1) =
          >>=-returned (call (tcp.delete_refresh_token r)) _ before after cookies h in
        let (hashes, last, e2, h2) =
          >>=-returned (call (tcp.blacklist_jwts u)) _ middle after cookies h1 in
        let (done, same) = call-returned (tcp.delete_refresh_token r) before middle tt e1 in
        let (read, alike) = call-returned (tcp.blacklist_jwts u) middle last hashes e2 in
        let blacklist : hashes ++ last.jwt_blacklist ≡ after.jwt_blacklist =
          ap (λ p. p.1.jwt_blacklist) h2 in
        let stored : last.db ≡ after.db = ap (λ p. p.1.db) h2 in
        record {
          hashes = hashes;
          middle = middle.db;
          refresh_hash = r;
          deleted = done;
          listed = read ∙ ap (λ d. (ok hashes, d)) stored;
          grown = rw (← blacklist, alike, same) refl;
        }

    get_logout-LoggedOut :
        (cookie : Option Str) (header : Option (Option Str)) (r : ℕ) (u : UserId)
        (before after : AppState S) (cookies : List Cookie)
        → get_refresh_token jwt cookie header ≡ ok (r, u)
        → get_logout jwt tcp backend path cookie header before ≡ (ok cookies, after)
        → LoggedOut u before after
    unfolding get_logout
    get_logout-LoggedOut cookie header r u before after cookies e h =
        let (parts, e1, h1) = continue-eq-ok (get_refresh_token jwt cookie header) _ before h in
        let same : parts ≡ (r, u) = cc (e, e1) in
        log_out-LoggedOut r u before after cookies
          (subst (λ p. log_out jwt tcp backend path p.0 p.1 before ≡ (ok cookies, after)) same h1)

    -- Over a table that lists the tokens of a user: after a logout that returned, every token of the
    -- user that the table had is refused.
    pub get_logout-IsRefused :
        (cookie : Option Str) (header : Option (Option Str)) (r : ℕ) (u : UserId) (token : Str)
        (before after : AppState S) (cookies : List Cookie) (laws : TokenLaws tcp)
        → get_refresh_token jwt cookie header ≡ ok (r, u)
        → laws.Registered u (jwt.default_hash token) before.db
        → get_logout jwt tcp backend path cookie header before ≡ (ok cookies, after)
        → IsRefused (check_if_token_is_valid jwt after token)
    get_logout-IsRefused cookie header r u token before after cookies laws e reg h =
        let out : LoggedOut u before after =
          get_logout-LoggedOut cookie header r u before after cookies e h in
        let kept : laws.Registered u (jwt.default_hash token) out.middle =
          laws.after_delete u (jwt.default_hash token) out.refresh_hash before.db out.middle reg
            out.deleted in
        let listed : contains (jwt.default_hash token) out.hashes ≡ true =
          laws.blacklists u (jwt.default_hash token) out.hashes out.middle after.db kept
            out.listed in
        blacklisted-IsRefused after token (
          rw
            (
              out.grown,
              any-append (λ x. nat_eq x (jwt.default_hash token)) out.hashes before.jwt_blacklist,
              listed,
            )
            refl)
