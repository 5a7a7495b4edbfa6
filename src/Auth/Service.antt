-- ===== src/Auth/Service.antt =====
-- server/src/infra/auth_service.rs: the tokens. A cookie of a request and its
-- header come as optional texts.
use lldap.Common.{
  ℕ, Bool, true, false, not, Option, none, some, List, [], ◌∷◌, ◌++◌, any, nat_eq, ltb,
  if◌then◌else◌,
}
use lldap.Common.Result.{Result, ok, err, panic, map_err}
use lldap.Common.Exec.{Exec}
use lldap.Text.{Str, codes}
use lldap.Domain.Error.{DomainError, DomainResult, authentication_error}
use lldap.Domain.Types.{External, UserId, new_user_id}
use lldap.Access.{ValidationResults, get_permissions_from_groups}
use lldap.Auth.{
  JwtClaims, AlgorithmType, hs512, other, JwtLibrary, TcpError, domain_error, TcpResult, AppState,
}

-- `actix_web::cookie::Cookie`; all are `http_only` and `SameSite::Strict`. The age is in seconds.
pub record Cookie : Type 0 where
  pub name : Str
  pub value : Str
  pub max_age : ℕ
  pub path : Str

-- `login::ServerLoginResponse`, with the cookies of the response.
pub record LoginResponse : Type 0 where
  pub cookies : List Cookie
  pub token : Str
  pub refresh_token : Option Str

pub data TokenError : Type 0 where
  invalid_jwt expired_jwt unsupported_algorithm logged_out : TokenError

abbrev supported : AlgorithmType → Bool
supported hs512 = true
supported other = false

-- `HashSet::contains`
abbrev pub contains : ℕ → List ℕ → Bool
contains h hs = any (λ x. nat_eq x h) hs

-- `str::split_once`
abbrev push_before : ℕ → Option (Str × Str) → Option (Str × Str)
push_before c none = none
push_before c (some (before, after)) = some (c ∷ before, after)

unfoldable pub split_once : ℕ → Str → Option (Str × Str)
split_once sep [] = none
split_once sep (c ∷ s) =
    let rest = split_once sep s in if nat_eq c sep then some ([], s) else push_before c rest

-- The path of the cookies: the server's path with a slash at its end.
unfoldable pub ends_with_slash : Str → Bool
ends_with_slash [] = false
ends_with_slash (c ∷ []) = nat_eq c b'/'
ends_with_slash (c ∷ d ∷ s) = ends_with_slash (d ∷ s)

abbrev pub cookie_path : Str → Str
cookie_path path = if ends_with_slash path then path else path ++ b'/' ∷ []

module _ (jwt : JwtLibrary) where
  unfoldable pub parse_refresh_token : Str → TcpResult (ℕ × UserId)
  unfolding split_once
  parse_refresh_token token = elim (split_once b'+' token) [
    | none ↦ err (domain_error (authentication_error (codes "Invalid refresh token")))
    | some parts ↦ ok (jwt.default_hash parts.0, new_user_id parts.1)
  ]

  -- The cookie, and what `to_str` makes of the header: `unwrap()` panics where it fails.
  unfoldable pub get_refresh_token : Option Str → Option (Option Str) → TcpResult (ℕ × UserId)
  unfolding parse_refresh_token
  get_refresh_token (some cookie) header = parse_refresh_token cookie
  get_refresh_token none (some (some header)) = parse_refresh_token header
  get_refresh_token none (some none) = panic
  get_refresh_token none none =
      err (domain_error (authentication_error (codes "Missing refresh token")))

module _ ⦃lib : External⦄ (jwt : JwtLibrary) {S : Type 0} where
  -- What is left after the signature has been verified.
  unfoldable pub check_claims :
      AppState S → Str → AlgorithmType × JwtClaims → Result TokenError ValidationResults
  unfolding get_permissions_from_groups
  check_claims state token_str (algorithm, claims) =
      if ltb claims.exp jwt.now
      then err expired_jwt
      else if not (supported algorithm)
      then err unsupported_algorithm
      else if contains (jwt.default_hash token_str) state.jwt_blacklist
      then err logged_out
      else ok (get_permissions_from_groups (new_user_id claims.user) claims.groups)

  unfoldable pub check_if_token_is_valid : AppState S → Str → Result TokenError ValidationResults
  unfolding check_claims
  check_if_token_is_valid state token_str = elim (jwt.verify_with_key token_str) [
    | none ↦ err invalid_jwt
    | some token ↦ check_claims state token_str token
  ]

-- `unwrap()` of a call: its error is a panic.
abbrev unwrapped : {A : Type 0} → DomainResult A → Result TcpError A
unwrapped (ok a) = ok a
unwrapped (err e) = panic
unwrapped panic = panic

module _ {S : Type 0} where
  abbrev with_db : AppState S → S → AppState S
  with_db state t = record { jwt_blacklist = state.jwt_blacklist; db = t }

  -- A call of the backend, its error converted by `?`.
  abbrev pub call : {A : Type 0} → Exec S DomainError A → Exec (AppState S) TcpError A
  call m state = (map_err domain_error (m state.db).0, with_db state (m state.db).1)

  abbrev pub query : {A : Type 0} → (S → DomainResult A) → Exec (AppState S) TcpError A
  query q state = (map_err domain_error (q state.db), state)

  abbrev pub call_unwrap : {A : Type 0} → Exec S DomainError A → Exec (AppState S) TcpError A
  call_unwrap m state = (unwrapped (m state.db).0, with_db state (m state.db).1)
