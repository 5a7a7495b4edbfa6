-- ===== src/Auth/SqlTokens.antt =====
-- server/src/infra/sql_backend_handler.rs: the tables of tokens. The statements of sea-orm, the random
-- string and the clock come from outside; a `u64` is stored as the `i64` with the same bits.
use lldap.Common.{
  ℕ, ◌-◌, ◌^◌, Bool, false, Option, none, some, List, ◌++◌, map, is_some, nat_eq, ltb,
  if◌then◌else◌,
}
use lldap.Common.Int.{ℤ, pos, negsuc}
use lldap.Common.Result.{Result, ok, ok_or}
use lldap.Common.Result
use lldap.Common.Exec.{pure, raise, ask, ◌>>=◌, ◌>>◌}
use lldap.Text.{Str, codes}
use lldap.Domain.Error.{entity_not_found}
use lldap.Domain.Types.{UserId, NaiveDateTime}
use lldap.Storage.{UserRow, Database, Query, Statement}
use lldap.Auth.{JwtLibrary, TcpBackend}

-- `as i64` and `as u64`
unfoldable pub as_i64 : ℕ → ℤ
as_i64 n = if ltb n (2 ^ 63) then pos n else negsuc (2 ^ 64 - 1 - n)

unfoldable pub as_u64 : ℤ → ℕ
as_u64 (pos n) = n
as_u64 (negsuc n) = 2 ^ 64 - 1 - n

pub record RefreshRow : Type 0 where
  pub refresh_token_hash : ℤ
  pub user_id : UserId
  pub expiry_date : NaiveDateTime

pub record JwtRow : Type 0 where
  pub jwt_hash : ℤ
  pub user_id : UserId
  pub expiry_date : NaiveDateTime
  pub blacklisted : Bool

pub record ResetRow : Type 0 where
  pub token : Str
  pub user_id : UserId
  pub expiry_date : NaiveDateTime

-- The statements on the three tables of tokens.
pub record TokenTables (S : Type 0) : Type 0 where
  -- the hashes of the blacklisted tokens
  pub find_blacklisted : Query S (List ℤ)
  -- the hashes of a user's tokens that are not blacklisted
  pub find_not_blacklisted : UserId → Query S (List ℤ)
  pub blacklist_user : UserId → Statement S Unit
  pub insert_jwt : JwtRow → Statement S Unit
  -- the refresh token with that key, of that user
  pub find_refresh : ℤ → UserId → Query S (Option RefreshRow)
  pub insert_refresh : RefreshRow → Statement S Unit
  pub delete_refresh : ℤ → Statement S Unit
  -- the reset token with that key that expires after that time
  pub find_reset : Str → NaiveDateTime → Query S (Option ResetRow)
  pub insert_reset : ResetRow → Statement S Unit
  pub delete_reset : Str → Statement S ℕ

-- `gen_random_string(100)`, for one choice of the random bytes.
module _ {S : Type 0} (jwt : JwtLibrary) (random : Str) (db : Database S)
    (tables : TokenTables S) where
  unfoldable pub get_jwt_blacklist : Query S (List ℕ)
  unfolding as_u64
  get_jwt_blacklist s = Result.map (map as_u64) (tables.find_blacklisted s)

  unfoldable pub create_refresh_token : UserId → Statement S (Str × ℕ)
  unfolding as_i64
  create_refresh_token user = do
    tables.insert_refresh (record {
      refresh_token_hash = as_i64 (jwt.default_hash random);
      user_id = user;
      expiry_date = jwt.seconds_from_now 2592000;
    })
    pure (random, 2592000)

  unfoldable pub register_jwt : UserId → ℕ → NaiveDateTime → Statement S Unit
  unfolding as_i64
  register_jwt user jwt_hash expiry_date = tables.insert_jwt (record {
    jwt_hash = as_i64 jwt_hash;
    user_id = user;
    expiry_date = expiry_date;
    blacklisted = false;
  })

  unfoldable pub check_token : ℕ → UserId → Query S Bool
  unfolding as_i64
  check_token refresh_token_hash user s =
      Result.map is_some (tables.find_refresh (as_i64 refresh_token_hash) user s)

  unfoldable pub blacklist_jwts : UserId → Statement S (List ℕ)
  unfolding as_u64
  blacklist_jwts user = do
    valid_tokens ← ask (tables.find_not_blacklisted user)
    tables.blacklist_user user
    pure (map as_u64 valid_tokens)

  unfoldable pub delete_refresh_token : ℕ → Statement S Unit
  unfolding as_i64
  delete_refresh_token refresh_token_hash = tables.delete_refresh (as_i64 refresh_token_hash)

  abbrev insert_reset_for : UserId → Option UserRow → Statement S (Option Str)
  insert_reset_for user none = pure none
  insert_reset_for user (some row) = do
    tables.insert_reset
        (record { token = random; user_id = user; expiry_date = jwt.seconds_from_now 600 })
    pure (some random)

  unfoldable pub start_password_reset : UserId → Statement S (Option Str)
  start_password_reset user = do found ← ask (db.find_user user); insert_reset_for user found

  unfoldable pub get_user_id_for_password_reset_token : Str → Query S UserId
  get_user_id_for_password_reset_token token s =
      Result.◌>>=◌ (tables.find_reset token jwt.now s) λ found.
        Result.map (λ row. row.user_id)
          (ok_or (entity_not_found (codes "Invalid reset token")) found)

  unfoldable pub delete_password_reset_token : Str → Statement S Unit
  delete_password_reset_token token = do
    rows ← tables.delete_reset token
    if nat_eq rows 0
        then raise
            (entity_not_found (codes "No such password reset token: '" ++ token ++ codes "'"))
        else pure tt

  unfoldable pub sql_tokens : TcpBackend S
  sql_tokens = record {
    get_jwt_blacklist = get_jwt_blacklist;
    create_refresh_token = create_refresh_token;
    register_jwt = register_jwt;
    check_token = check_token;
    blacklist_jwts = blacklist_jwts;
    delete_refresh_token = delete_refresh_token;
    start_password_reset = start_password_reset;
    get_user_id_for_password_reset_token = get_user_id_for_password_reset_token;
    delete_password_reset_token = delete_password_reset_token;
  }
