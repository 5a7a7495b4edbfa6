-- ===== src/Auth/Bits.antt =====
-- The hashes of tokens on their way through the database (server/src/infra/sql_backend_handler.rs).
use mathlib.Core.List.{Memᴰ}
use mathlib.Core.List.Memᴰ.{head, tail}
use lldap.Common.{
  ℕ, ◌≡◌, refl, sym, ap, ◌∙◌, ◌<◌, ◌^◌, inl, inr, false, true, List, [], ◌∷◌, map, Bool-cases, ltb,
  arith,
}
use lldap.Common.Int.{ℤ}
use lldap.Common.Int.Decimal.{InI64}
use lldap.Common.Result.{Result, ok, err, panic}
use lldap.Common.Result
use lldap.Common.Exec.{continue-eq-ok, >>=-returned}
use lldap.Text.{Str}
use lldap.Domain.Types.{UserId, NaiveDateTime}
use lldap.Storage.{Database}
use lldap.Auth.{JwtLibrary}
use lldap.Auth.Service.{contains}
use lldap.Auth.SqlTokens.{
  as_i64, as_u64, JwtRow, TokenTables, get_jwt_blacklist, register_jwt, blacklist_jwts,
}

as_i64-InI64 : (n : ℕ) → n < 2 ^ 64 → InI64 (as_i64 n) × (as_u64 (as_i64 n) ≡ n)
unfolding as_i64 as_u64
as_i64-InI64 n h = elim (Bool-cases (ltb n (2 ^ 63))) [
  | inl small ↦ rw small (ground arith, refl)
  | inr large ↦ rw large (ground arith, ground arith)
]

-- What the statements on the tables of tokens promise, for columns of 64 bits with a sign: a row that
-- an insertion wrote is found by its keys, and the rows that an update marks as blacklisted are among
-- those that have the mark.
pub record TokenRows {S : Type 0} (tables : TokenTables S) : Type 0 where
  pub finds_not_blacklisted :
      (row : JwtRow) (s t : S) (found : List ℤ)
      → InI64 row.jwt_hash
      → row.blacklisted ≡ false
      → tables.insert_jwt row s ≡ (ok tt, t)
      → tables.find_not_blacklisted row.user_id t ≡ ok found
      → Memᴰ row.jwt_hash found
  pub finds_blacklisted :
      (z : ℤ) (u : UserId) (s t : S) (live dead : List ℤ)
      → tables.find_not_blacklisted u s ≡ ok live
      → Memᴰ z live
      → tables.blacklist_user u s ≡ (ok tt, t)
      → tables.find_blacklisted t ≡ ok dead
      → Memᴰ z dead

map-eq-ok :
    {E A B : Type 0} (f : A → B) (r : Result E A) (b : B)
    → Result.map f r ≡ ok b
    → (a : A) × (r ≡ ok a) × (f a ≡ b)
map-eq-ok f (ok a) b h = (a, refl, cc h)
map-eq-ok f (err e) b h = cc h
map-eq-ok f panic b h = cc h

listed :
    (h : ℕ) (found : List ℤ)
    → h < 2 ^ 64
    → Memᴰ (as_i64 h) found
    → contains h (map as_u64 found) ≡ true
listed h [] lt m = elim m [ ]
listed h (z ∷ zs) lt (head same) =
    let back : as_u64 z ≡ h = ap as_u64 (sym same) ∙ (as_i64-InI64 h lt).1 in rw back (ground arith)
listed h (z ∷ zs) lt (tail m) =
    let rest : contains h (map as_u64 zs) ≡ true = listed h zs lt m in ground arith

module _ {S : Type 0} (jwt : JwtLibrary) (random : Str) (db : Database S)
    (tables : TokenTables S) where
  -- Over tables that keep their rows: the hash of 64 bits of a token that was registered for a user
  -- is among the hashes that a logout of that user gets next; and when the list of the tokens that
  -- were logged out is loaded from the database after it, the hash is in that list.
  pub blacklist_jwts-has_registered :
      (u : UserId) (h : ℕ) (expiry : NaiveDateTime) (hashes loaded : List ℕ) (s t after : S)
      → TokenRows tables
      → h < 2 ^ 64
      → register_jwt jwt random db tables u h expiry s ≡ (ok tt, t)
      → blacklist_jwts jwt random db tables u t ≡ (ok hashes, after)
      → get_jwt_blacklist jwt random db tables after ≡ ok loaded
      → (contains h hashes ≡ true) × (contains h loaded ≡ true)
  unfolding register_jwt blacklist_jwts get_jwt_blacklist
  blacklist_jwts-has_registered u h expiry hashes loaded s t after rows lt registered answered
        load =
      let (found, e, h1) = continue-eq-ok (tables.find_not_blacklisted u t) _ t answered in
      let (_, middle, e2, h2) = >>=-returned (tables.blacklist_user u) _ t after hashes h1 in
      let (dead, e3, back) = map-eq-ok (map as_u64) (tables.find_blacklisted after) loaded load in
      let same : map as_u64 found ≡ hashes = cc (ap (λ p. p.0) h2) in
      let end : middle ≡ after = ap (λ p. p.1) h2 in
      let live : Memᴰ (as_i64 h) found =
        rows.finds_not_blacklisted _ s t found (as_i64-InI64 h lt).0 refl registered e in
      let marked : Memᴰ (as_i64 h) dead =
        rows.finds_blacklisted (as_i64 h) u t after found dead e live (rw (← end) e2) e3 in
      (rw (← same) (listed h found lt live), rw (← back) (listed h dead lt marked))
