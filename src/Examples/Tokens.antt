-- ===== src/Examples/Tokens.antt =====
-- The theorems on the authentication service: tokens of one letter before the name of their user, and
-- a table that keeps the hashes of the tokens that it was given.
use mathlib.Core.List.{flat_map}
use lldap.Common.{
  ℕ, ◌^◌, ◌-◌, ◌+◌, ◌≡◌, refl, true, Option, none, some, List, [], ◌∷◌, arith, if◌then◌else◌,
}
use lldap.Common.Result.{Result, ok, err}
use lldap.Text.{Str, codes, ◌==◌, to_ascii_lowercase}
use lldap.Domain.Error.{DomainError}
use lldap.Domain.Types.{new_case_insensitive}
use lldap.Domain.Types.Compare.{
  eq_ignore_case, compare_str_case_insensitive, compare_chars, fold_case,
}
use lldap.Domain.Backend.{RegistrationStartResponse}
use lldap.Access.{can_change_password, get_permissions_from_groups}
use lldap.Auth.{JwtLibrary, JwtClaims, AlgorithmType, hs512, TcpBackend, AppState}
use lldap.Auth.Service.{
  TokenError, Cookie, contains, check_if_token_is_valid, check_claims, get_refresh_token,
  parse_refresh_token, split_once, ends_with_slash,
}
use lldap.Auth.Handlers.{get_logout, log_out}
use lldap.Auth.Registration.{RegistrationStart, opaque_register_start, bearer_user}
use lldap.Auth.Logout.{TokenLaws, IsRefused, get_logout-IsRefused}
use lldap.Auth.Authority.{Allowed, opaque_register_start-Allowed}
use lldap.Auth.SqlTokens.{
  as_i64, as_u64, TokenTables, get_jwt_blacklist, register_jwt, blacklist_jwts,
}
use lldap.Auth.Bits.{TokenRows, blacklist_jwts-has_registered}
use mathlib.Core.List.Memᴰ.{head}
use mathlib.Core.List.Memᴰ
use lldap.Common.{ap, ◌++◌}
use lldap.Common.Int.{negsuc}
use lldap.Graphql.Dispatch.{Request}
use lldap.Graphql.Route.{graphql_route, graphql_route-after_logout}
use lldap.Examples.Tables.{Tables, tables, no_values}
use lldap.Examples.World.{ascii, ann, bob, memory, directory, Directory}

abbrev first_of : Str → ℕ
first_of [] = 0
first_of (c ∷ s) = c

abbrev verified : Str → Option (AlgorithmType × JwtClaims)
verified [] = none
verified (c ∷ name) =
    some (hs512, record { exp = 100; iat = 0; user = name; groups = codes "lldap_admin" ∷ [] })

abbrev jwt : JwtLibrary
jwt = record {
  verify_with_key = verified;
  sign_with_key = λ a claims. some (98 ∷ claims.user);
  default_hash = first_of;
  now = 10;
  seconds_from_now = λ n. 10 + n;
}

abbrev nothing : Directory → Result DomainError (Unit {0}) × Directory
nothing s = (ok tt, s)

-- The tokens with these hashes are Ann's.
abbrev issued : List ℕ
issued = 97 ∷ 98 ∷ []

abbrev tokens : TcpBackend Directory
tokens = record {
  get_jwt_blacklist = λ s. ok [];
  create_refresh_token = λ u s. (ok (u, 2592000), s);
  register_jwt = λ u h e. nothing;
  check_token = λ h u s. ok true;
  blacklist_jwts = λ u s. (ok (if u == ann then issued else []), s);
  delete_refresh_token = λ h. nothing;
  start_password_reset = λ u s. (ok none, s);
  get_user_id_for_password_reset_token = λ t s. ok t;
  delete_password_reset_token = λ t. nothing;
}

unfoldable laws : TokenLaws tokens
laws = record {
  Registered = λ u h s. contains h (if u == ann then issued else []) ≡ true;
  after_delete = λ u h r s t reg e. reg;
  blacklists = λ u h hs s t reg e.
      (let same : (if u == ann then issued else []) ≡ hs = cc e in rw (← same) reg);
}

abbrev before : AppState Directory
before = record { jwt_blacklist = []; db = directory }

abbrev refresh : Option Str
refresh = some (codes "r+ann")

abbrev after : AppState Directory
after = (get_logout jwt tokens memory (codes "/") refresh none before).1

abbrev cookies : List Cookie
cookies =
    record { name = codes "token"; value = []; max_age = 0; path = codes "/" }
    ∷ record { name = codes "refresh_token"; value = []; max_age = 0; path = codes "/auth" }
    ∷ []

logout_returns : get_logout jwt tokens memory (codes "/") refresh none before ≡ (ok cookies, after)
unfolding get_logout log_out get_refresh_token parse_refresh_token split_once ends_with_slash
logout_returns = refl

refresh_of_ann : get_refresh_token jwt refresh none ≡ ok (114, ann)
unfolding get_refresh_token parse_refresh_token split_once new_case_insensitive to_ascii_lowercase
refresh_of_ann = refl

-- A token of Ann that was good before the logout.
get_logout-IsRefused_example : IsRefused (check_if_token_is_valid jwt after (codes "aann"))
unfolding laws ◌==◌
get_logout-IsRefused_example =
    get_logout-IsRefused jwt tokens memory (codes "/") refresh none 114 ann (codes "aann") before
      after cookies laws refresh_of_ann refl logout_returns

-- The same token with a request that deletes Bob.
graphql_route-after_logout_example :
    (e : TokenError) × (graphql_route jwt memory
        (some (codes "aann"))
        (Request.delete_user bob ∷ [])
        after
      ≡ (err (some e), after))
unfolding laws ◌==◌
graphql_route-after_logout_example =
    graphql_route-after_logout jwt memory tokens (codes "/") refresh none 114 ann (codes "aann")
      (Request.delete_user bob ∷ []) before after cookies laws refresh_of_ann refl logout_returns

abbrev body : RegistrationStart
body = record { username = ann; registration_start_request = [] }

abbrev answer : RegistrationStartResponse
answer = record { server_data = ann; registration_response = [] }

start_returns :
    opaque_register_start jwt memory (some (codes "aann")) (some body) before ≡ (ok answer, before)
unfolding opaque_register_start bearer_user check_if_token_is_valid check_claims can_change_password
    get_permissions_from_groups eq_ignore_case compare_str_case_insensitive compare_chars fold_case
    flat_map
start_returns = refl

opaque_register_start-Allowed_example : Allowed jwt memory (some (codes "aann")) (some body) before
opaque_register_start-Allowed_example =
    opaque_register_start-Allowed jwt memory (some (codes "aann")) (some body) before before answer
      start_returns

-- Tables of tokens that remember the hashes of the tokens of one user.
abbrev remembered : TokenTables Tables
remembered = record {
  find_blacklisted = λ s. ok s.blacklisted;
  find_not_blacklisted = λ u s. ok s.hashes;
  blacklist_user =
      λ u s. (ok tt, record s { hashes = []; blacklisted = s.hashes ++ s.blacklisted });
  insert_jwt = λ row s. (ok tt, record s { hashes = row.jwt_hash ∷ s.hashes });
  find_refresh = λ h u s. ok none;
  insert_refresh = λ row s. (ok tt, s);
  delete_refresh = λ h s. (ok tt, s);
  find_reset = λ t time s. ok none;
  insert_reset = λ row s. (ok tt, s);
  delete_reset = λ t s. (ok 1, s);
}

remembers : TokenRows remembered
remembers = record {
  finds_not_blacklisted = λ row s t found fits fresh inserted e.
      (let state : row.jwt_hash ∷ s.hashes ≡ t.hashes = ap (λ p. p.1.hashes) inserted in
        let same : t.hashes ≡ found = cc e in rw (← same, ← state) (head refl));
  finds_blacklisted = λ z u s t live dead e found marked loaded.
      (let same : s.hashes ≡ live = cc e in
        let state : s.hashes ++ s.blacklisted ≡ t.blacklisted = ap (λ p. p.1.blacklisted) marked in
        let all : t.blacklisted ≡ dead = cc loaded in
        rw (← all, ← state) (Memᴰ.append_left s.blacklisted (rw (← same) at found)));
}

-- The largest hash of 64 bits is stored as -1.
abbrev largest : ℕ
largest = 2 ^ 64 - 1

abbrev logged_in : Tables
logged_in = record no_values { hashes = negsuc 0 ∷ [] }

abbrev logged_out : Tables
logged_out = record no_values { blacklisted = negsuc 0 ∷ [] }

blacklist_jwts-has_registered_example :
    (contains largest (largest ∷ []) ≡ true) × (contains largest (largest ∷ []) ≡ true)
unfolding register_jwt blacklist_jwts get_jwt_blacklist as_i64 as_u64
blacklist_jwts-has_registered_example =
    blacklist_jwts-has_registered jwt [] tables remembered ann largest 100 (largest ∷ [])
      (largest ∷ []) no_values logged_in logged_out remembers (omega arith) refl refl refl
