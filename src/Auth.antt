-- ===== src/Auth.antt =====
-- The authentication service: what its handlers (server/src/infra/auth_service.rs) use. The crates
-- jwt and chrono, and the hash function of the standard library, are the operations of a record; the
-- trait of server/src/infra/tcp_backend_handler.rs is a record of operations on the database.
pub mod SqlTokens
pub mod Service
pub mod Handlers
pub mod Registration
pub mod Logout
pub mod Authority
pub mod Bits
use lldap.Common.{ℕ, Bool, Option, List}
use lldap.Common.Result.{Result}
use lldap.Common.Exec.{Exec}
use lldap.Text.{Str}
use lldap.Domain.Error.{DomainError, DomainResult}
use lldap.Domain.Types.{UserId, NaiveDateTime}

-- `JWTClaims` of auth/src/lib.rs; a `DateTime<Utc>` is a point in time.
pub record JwtClaims : Type 0 where
  pub exp : NaiveDateTime
  pub iat : NaiveDateTime
  pub user : Str
  pub groups : List Str

-- `jwt::AlgorithmType`, as far as the service tells them apart.
pub data AlgorithmType : Type 0 where
  hs512 other : AlgorithmType

pub record JwtLibrary : Type 0 where
  -- `VerifyWithKey` and `SignWithKey`, with the server's key
  pub verify_with_key : Str → Option (AlgorithmType × JwtClaims)
  pub sign_with_key : AlgorithmType → JwtClaims → Option Str
  -- `default_hash`, a `u64`
  pub default_hash : Str → ℕ
  -- `Utc::now()`
  pub now : NaiveDateTime
  -- `Utc::now() + Duration`
  pub seconds_from_now : ℕ → NaiveDateTime

-- `TcpError`
pub data TcpError : Type 0 where
  domain_error : DomainError → TcpError
  bad_request internal_server_error not_found_error unauthorized_error : Str → TcpError

abbrev pub TcpResult : Type 0 → Type 0
TcpResult A = Result TcpError A

-- `TcpBackendHandler`. A `HashSet` is a list; a duration is in seconds.
pub record TcpBackend (S : Type 0) : Type 0 where
  pub get_jwt_blacklist : S → DomainResult (List ℕ)
  pub create_refresh_token : UserId → Exec S DomainError (Str × ℕ)
  pub register_jwt : UserId → ℕ → NaiveDateTime → Exec S DomainError Unit
  pub check_token : ℕ → UserId → S → DomainResult Bool
  pub blacklist_jwts : UserId → Exec S DomainError (List ℕ)
  pub delete_refresh_token : ℕ → Exec S DomainError Unit
  pub start_password_reset : UserId → Exec S DomainError (Option Str)
  pub get_user_id_for_password_reset_token : Str → S → DomainResult UserId
  pub delete_password_reset_token : Str → Exec S DomainError Unit

-- `AppState`: the hashes of the tokens that were logged out, and the database.
pub record AppState (S : Type 0) : Type 0 where
  pub jwt_blacklist : List ℕ
  pub db : S
