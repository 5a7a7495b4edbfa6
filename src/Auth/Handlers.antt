-- ===== src/Auth/Handlers.antt =====
-- server/src/infra/auth_service.rs: the handlers that log users in and out, reset passwords and
-- register them. A handler gets the decoded body of its request.
use lldap.Common.{ℕ, ◌*◌, ◌/◌, ◌++◌, not, Option, none, some, List, [], ◌∷◌, map, if◌then◌else◌}
use lldap.Common.Result.{Result, ok, panic, ok_or, map_err}
use lldap.Common.Exec.{Exec, pure, raise, crash, lift, ◌>>=◌, ◌>>◌}
use lldap.Text.{Str, Bytes, codes}
use lldap.Domain.Types.{UserId, GroupDetails}
use lldap.Domain.Handler.{BindRequest}
use lldap.Domain.Backend.{Backend}
use lldap.Domain.Error.{DomainResult, authentication_error}
use lldap.Auth.{
  JwtClaims, hs512, JwtLibrary, TcpError, domain_error, bad_request, not_found_error,
  unauthorized_error, TcpBackend, AppState,
}
use lldap.Auth.Service.{
  Cookie, LoginResponse, cookie_path, get_refresh_token, call, query, call_unwrap,
}

abbrev one_day : ℕ
one_day = 86400

abbrev invalid_refresh_token : TcpError
invalid_refresh_token = domain_error (authentication_error (codes "Invalid refresh token"))

abbrev not_authorized : TcpError
not_authorized = unauthorized_error (codes "Not authorized to change the user's password")

-- `let _ = ..`: an error is dropped, a panic is not.
abbrev ignored : DomainResult Unit → Result TcpError (Unit {0})
ignored panic = panic
ignored _ = ok tt

module _ (jwt : JwtLibrary) {S : Type 0} (tcp : TcpBackend S) where
  -- The token is signed and its hash is registered; a failure of either is a panic.
  unfoldable pub create_jwt : UserId → List GroupDetails → Exec (AppState S) TcpError Str
  create_jwt user groups =
      let claims : JwtClaims = record {
        exp = jwt.seconds_from_now one_day;
        iat = jwt.now;
        user = user;
        groups = map (λ (g : GroupDetails). g.display_name) groups;
      } in
      elim (jwt.sign_with_key hs512 claims) [
        | none ↦ crash
        | some token ↦ do
          call_unwrap (tcp.register_jwt user (jwt.default_hash token) claims.exp)
          pure token
      ]

  module _ (backend : Backend S) (path : Str) where
    unfoldable pub get_refresh :
        Option Str → Option (Option Str) → Exec (AppState S) TcpError LoginResponse
    unfolding get_refresh_token create_jwt
    get_refresh cookie header = do
      (refresh_token_hash, user) ← lift (get_refresh_token jwt cookie header)
      found ← query (tcp.check_token refresh_token_hash user)
      if not found then raise invalid_refresh_token else do
        groups ← query (backend.get_user_groups user)
        token ← create_jwt user groups
        pure (record {
          cookies =
              record {
                name = codes "token";
                value = token;
                max_age = one_day;
                path = cookie_path path;
              }
              ∷ [];
          token = token;
          refresh_token = none;
        })

    -- The logout of the user of a refresh token.
    unfoldable pub log_out : ℕ → UserId → Exec (AppState S) TcpError (List Cookie)
    log_out refresh_token_hash user = do
      call (tcp.delete_refresh_token refresh_token_hash)
      hashes ← call (tcp.blacklist_jwts user)
      (λ state. (ok tt, record state { jwt_blacklist = hashes ++ state.jwt_blacklist }))
      pure (
          record { name = codes "token"; value = []; max_age = 0; path = cookie_path path }
          ∷ record {
            name = codes "refresh_token";
            value = [];
            max_age = 0;
            path = cookie_path path ++ codes "auth";
          }
          ∷ [])

    unfoldable pub get_logout :
        Option Str → Option (Option Str) → Exec (AppState S) TcpError (List Cookie)
    unfolding get_refresh_token log_out
    get_logout cookie header = do
      parts ← lift (get_refresh_token jwt cookie header)
      log_out parts.0 parts.1

    unfoldable pub get_login_successful_response : UserId → Exec (AppState S) TcpError LoginResponse
    unfolding create_jwt
    get_login_successful_response name = do
      groups ← query (backend.get_user_groups name)
      (refresh_token, max_age) ← call (tcp.create_refresh_token name)
      token ← create_jwt name groups
      pure (record {
        cookies =
            record {
              name = codes "token";
              value = token;
              max_age = one_day;
              path = cookie_path path;
            }
            ∷ record {
              name = codes "refresh_token";
              value = refresh_token ++ codes "+" ++ name;
              max_age = max_age / one_day * one_day;
              path = cookie_path path ++ codes "auth";
            }
            ∷ [];
        token = token;
        refresh_token = some (refresh_token ++ codes "+" ++ name);
      })

    unfoldable pub simple_login : UserId → Str → Exec (AppState S) TcpError LoginResponse
    unfolding get_login_successful_response
    simple_login username password = do
      query (backend.bind (record { name = username; password = password }))
      get_login_successful_response username

    unfoldable pub post_authorize : BindRequest → Exec (AppState S) TcpError LoginResponse
    unfolding get_login_successful_response
    post_authorize request = do
      query (backend.bind request)
      get_login_successful_response request.name

    -- The OPAQUE login, over the last step of the backend's.
    unfoldable pub opaque_login_finish :
        (Bytes → Bytes → DomainResult UserId)
        → Bytes
        → Bytes
        → Exec (AppState S) TcpError LoginResponse
    unfolding get_login_successful_response
    opaque_login_finish login_finish server_data credential_finalization = do
      name ← query (λ s. login_finish server_data credential_finalization)
      get_login_successful_response name

    -- `server_data` of the reset: the user, and a token that is only good for the password.
    unfoldable pub get_password_reset_step2 :
        Option Str → Exec (AppState S) TcpError (Cookie × UserId × Str)
    unfolding create_jwt
    get_password_reset_step2 token = do
      reset_token ← lift (ok_or (bad_request (codes "Missing reset token")) token)
      user_id ← (λ state. (
        map_err (λ e. not_found_error (codes "Wrong or expired reset token"))
            (tcp.get_user_id_for_password_reset_token reset_token state.db),
        state,
      ))
      (λ state. (
        ignored (tcp.delete_password_reset_token reset_token state.db).0,
        record state { db = (tcp.delete_password_reset_token reset_token state.db).1 },
      ))
      new_token ← create_jwt user_id []
      pure (
        record {
          name = codes "token";
          value = new_token;
          max_age = 300;
          path = cookie_path path ++ codes "auth";
        },
        user_id,
        new_token,
      )

module _ {S : Type 0} (backend : Backend S) where
  -- The last step of a registration.
  unfoldable pub opaque_register_finish : Bytes → Bytes → Exec (AppState S) TcpError Unit
  opaque_register_finish server_data registration_upload =
      call (backend.registration_finish server_data registration_upload)
