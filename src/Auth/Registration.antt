-- ===== src/Auth/Registration.antt =====
-- server/src/infra/auth_service.rs: the start of a registration of a password, and the first step of
-- a password reset.
use lldap.Common.{Bool, false, not, Option, none, some, List, [], ◌∷◌, any, if◌then◌else◌}
use lldap.Common.Result.{Result, ok, err, panic, ok_or}
use lldap.Common.Exec.{Exec, pure, raise, lift, ◌>>=◌}
use lldap.Text.{Str, Bytes, codes}
use lldap.Domain.Types.{External, User, UserAndGroups, UserId, GroupDetails, new_user_id}
use lldap.Domain.Types.Compare.{eq_ignore_case}
use lldap.Domain.Handler.{UserColumn, UserRequestFilter, UserRequestFilters}
use lldap.Domain.Backend.{Backend, RegistrationStartResponse}
use lldap.Access.{ValidationResults, can_change_password}
use lldap.Auth.{
  JwtLibrary, TcpError, bad_request, internal_server_error, unauthorized_error, TcpBackend,
  AppState,
}
use lldap.Auth.Service.{check_if_token_is_valid, call, query}

abbrev pub not_authorized : TcpError
not_authorized = unauthorized_error (codes "Not authorized to change the user's password")

-- `Result::ok`; a panic goes through.
abbrev pub accepted : {E A : Type 0} → Result E A → Result TcpError A
accepted (ok a) = ok a
accepted (err e) = err not_authorized
accepted panic = panic

-- `registration::ClientRegistrationStartRequest`
pub record RegistrationStart : Type 0 where
  pub username : UserId
  pub registration_start_request : Bytes

-- The user of a search by name or address: none found is no error, two are.
abbrev pub one_user : List UserAndGroups → Result TcpError (Option User)
one_user [] = ok none
one_user (u ∷ []) = ok (some u.user)
one_user (u ∷ v ∷ us) = err (internal_server_error (codes "Ambiguous user id or email"))

-- The reset token is sent to the user's address: `send` says whether that worked.
abbrev send_token :
    {S : Type 0}
    → TcpBackend S
    → (User → Str → Bool)
    → Option User
    → Exec (AppState S) TcpError Unit
send_token tcp send none = pure tt
send_token tcp send (some user) = do
  token ← call (tcp.start_password_reset user.user_id)
  elim token [
    | none ↦ pure tt
    | some t ↦
        if send user t
        then pure tt
        else raise (internal_server_error (codes "Could not send email"))
  ]

module _ ⦃lib : External⦄ where
  abbrev pub is_lldap_admin : List GroupDetails → Bool
  is_lldap_admin groups =
      any (λ (g : GroupDetails). eq_ignore_case g.display_name (codes "lldap_admin")) groups

module _ ⦃lib : External⦄ (jwt : JwtLibrary) {S : Type 0} where
  -- The validation of the bearer token, if the request has one.
  unfoldable pub bearer_user : Option Str → Exec (AppState S) TcpError ValidationResults
  unfolding check_if_token_is_valid
  bearer_user none state = (err not_authorized, state)
  bearer_user (some token) state = (accepted (check_if_token_is_valid jwt state token), state)

module _ ⦃lib : External⦄ (jwt : JwtLibrary) {S : Type 0} (backend : Backend S) where
  -- `body` is the decoded request, or none for one that does not decode.
  unfoldable pub opaque_register_start :
      Option Str → Option RegistrationStart → Exec (AppState S) TcpError RegistrationStartResponse
  unfolding bearer_user can_change_password
  opaque_register_start bearer body = do
    validation_result ← bearer_user jwt bearer
    request ← lift (ok_or (bad_request []) body)
    groups ← query (backend.get_user_groups request.username)
    if not (can_change_password validation_result request.username (is_lldap_admin groups))
        then raise not_authorized
        else query (backend.registration_start request.username request.registration_start_request)

module _ {S : Type 0} (backend : Backend S) where
  unfoldable pub get_password_reset_step1 :
      TcpBackend S → (User → Str → Bool) → Option Str → Exec (AppState S) TcpError Unit
  get_password_reset_step1 tcp send user_string = do
    text ← lift (ok_or (bad_request (codes "Missing user ID")) user_string)
    users ← query (
        backend.list_users
          (some (
            UserRequestFilter.or (
              UserRequestFilters.cons (UserRequestFilter.user_id (new_user_id text)) (
                UserRequestFilters.cons (UserRequestFilter.equality UserColumn.email text)
                  UserRequestFilters.nil))))
          false)
    user ← lift (one_user users)
    send_token tcp send user
