-- ===== src/Graphql/Route.antt =====
-- server/src/infra/graphql/api.rs, `graphql_route`: a request with a bearer token that asks for some
-- mutations. The crate juniper runs them in their order.
use lldap.Common.{◌≡◌, refl, ℕ, Option, none, some, List, map}
use lldap.Common.Result.{Result, ok, err, panic}
use lldap.Text.{Str}
use lldap.Domain.Types.{External, UserId}
use lldap.Domain.Backend.{Backend}
use lldap.Access.{ValidationResults}
use lldap.Auth.{JwtLibrary, TcpBackend, AppState}
use lldap.Auth.Service.{Cookie, TokenError, check_if_token_is_valid, get_refresh_token}
use lldap.Auth.Handlers.{get_logout}
use lldap.Auth.Logout.{TokenLaws, get_logout-IsRefused}
use lldap.Graphql.Dispatch.{Request, after_all}

module _ ⦃lib : External⦄ (jwt : JwtLibrary) {S : Type 0} (backend : Backend S) where
  abbrev run :
      List Request
      → AppState S
      → Result TokenError ValidationResults
      → Result (Option TokenError) ValidationResults × AppState S
  run requests state (ok v) =
      (ok v, record state { db = after_all backend (map (λ r. (v, r)) requests) state.db })
  run requests state (err e) = (err (some e), state)
  run requests state panic = (panic, state)

  -- The user whose mutations were run, or the error: none for a request without a token.
  unfoldable pub graphql_route :
      Option Str
      → List Request
      → AppState S
      → Result (Option TokenError) ValidationResults × AppState S
  unfolding check_if_token_is_valid after_all
  graphql_route none requests state = (err none, state)
  graphql_route (some token) requests state =
      run requests state (check_if_token_is_valid jwt state token)

  -- Over a table that lists the tokens of a user: after a logout that returned, a request with a token
  -- of that user that the table had runs no mutation, and fails.
  pub graphql_route-after_logout :
      (tcp : TcpBackend S) (path : Str) (cookie : Option Str) (header : Option (Option Str)) (r : ℕ)
      (u : UserId) (token : Str) (requests : List Request) (before after : AppState S)
      (cookies : List Cookie) (laws : TokenLaws tcp)
      → get_refresh_token jwt cookie header ≡ ok (r, u)
      → laws.Registered u (jwt.default_hash token) before.db
      → get_logout jwt tcp backend path cookie header before ≡ (ok cookies, after)
      → (e : TokenError) × (graphql_route (some token) requests after ≡ (err (some e), after))
  unfolding graphql_route
  graphql_route-after_logout tcp path cookie header r u token requests before after cookies laws e
        reg h =
      let (error, refused) =
        get_logout-IsRefused jwt tcp backend path cookie header r u token before after cookies laws
          e reg h in
      (error, rw refused refl)
