-- ===== src/Auth/Authority.antt =====
-- Who may start the registration of a password (server/src/infra/auth_service.rs).
use lldap.Common.{not, if◌then◌else◌, ◌≡◌, refl, Bool, true, false, Option, none, some, List, []}
use lldap.Common.Result.{Result, ok, err, panic, map_err, ok_or, map_err-eq-ok, ok_or-eq-ok}
use lldap.Common.Exec.{Exec, raise, continue-eq-ok}
use lldap.Text.{Str}
use lldap.Domain.Types.{External}
use lldap.Domain.Backend.{Backend}
use lldap.Auth.{bad_request, JwtLibrary, domain_error, TcpError, AppState}
use lldap.Auth.Service.{TokenError, check_if_token_is_valid}
use lldap.Access.{ValidationResults, can_change_password}
use lldap.Domain.Types.{GroupDetails}
use lldap.Domain.Backend.{RegistrationStartResponse}
use lldap.Auth.Registration.{
  RegistrationStart, accepted, not_authorized, bearer_user, is_lldap_admin, opaque_register_start,
}

-- What a registration that was let through knows: a valid token, and the right to change the password
-- of the user that the request names.
pub record Allowed ⦃lib : External⦄ (jwt : JwtLibrary) {S : Type 0} (backend : Backend S)
    (bearer : Option Str) (body : Option RegistrationStart) (state : AppState S) : Type 0 where
  pub token : Str
  pub has_token : bearer ≡ some token
  pub request : RegistrationStart
  pub has_request : body ≡ some request
  pub user : ValidationResults
  pub valid : check_if_token_is_valid jwt state token ≡ ok user
  pub groups : List GroupDetails
  pub read : backend.get_user_groups request.username state.db ≡ ok groups
  pub may_change : can_change_password user request.username (is_lldap_admin groups) ≡ true

accepted-eq-ok : {A : Type 0} (r : Result TokenError A) {a : A} → accepted r ≡ ok a → r ≡ ok a
accepted-eq-ok (ok b) h = cc
accepted-eq-ok (err e) h = cc
accepted-eq-ok panic h = cc

module _ ⦃lib : External⦄ (jwt : JwtLibrary) {S : Type 0} (backend : Backend S) where
  -- The last test of the start of a registration.
  let_through :
      (b : Bool) (rest : Exec (AppState S) TcpError RegistrationStartResponse)
      (state after : AppState S) (response : RegistrationStartResponse)
      → (if not b then raise not_authorized else rest) state ≡ (ok response, after)
      → b ≡ true
  let_through true rest state after response h = refl
  let_through false rest state after response h = cc

  -- The start of a registration that returned had a bearer token that is valid, and its user may
  -- change the password of the user that the request names.
  pub opaque_register_start-Allowed :
      (bearer : Option Str) (body : Option RegistrationStart) (state after : AppState S)
      (response : RegistrationStartResponse)
      → opaque_register_start jwt backend bearer body state ≡ (ok response, after)
      → Allowed jwt backend bearer body state
  unfolding opaque_register_start bearer_user
  opaque_register_start-Allowed none body state after response h = cc
  opaque_register_start-Allowed (some token) body state after response h =
      let (v, e1, h1) =
        continue-eq-ok (accepted (check_if_token_is_valid jwt state token)) _ state h in
      let (request, e2, h2) = continue-eq-ok (ok_or (bad_request []) body) _ state h1 in
      let (groups, e3, h3) =
        continue-eq-ok (map_err domain_error (backend.get_user_groups request.username state.db)) _
          state h2 in
      record {
        token = token;
        has_token = refl;
        request = request;
        has_request = ok_or-eq-ok _ body e2;
        user = v;
        valid = accepted-eq-ok _ e1;
        groups = groups;
        read = map_err-eq-ok domain_error _ e3;
        may_change =
            let_through (can_change_password v request.username (is_lldap_admin groups)) _ state
              after response h3;
      }
