-- ===== src/Storage/Listing.antt =====
-- `list_users` of server/src/domain/sql_user_backend_handler.rs and a lookup for each user.
use lldap.Common.{ℕ, ◌≡◌, ap, Bool, Option, List, map, All}
use lldap.Common.Result.{ok, ◌>>=◌, >>=-agree}
use lldap.Domain.Types.{External, UserId, UserAndGroups}
use lldap.Domain.Handler.{UserRequestFilter}
use lldap.Domain.Sql.{Cond}
use lldap.Storage.{Database, UserAttributeRow, UserRow, GroupRow, Query}
use lldap.Storage.UserRows.{user_and_groups}
use lldap.Storage.UserQueries.{list_users, filter_or_all}
use lldap.Storage.Attached.{with_own_rows, SortedRows, Increasing, Owned, attach-own}

-- What the two queries promise, for an order of the users: a strictly increasing list of users, the
-- rows sorted by user, and no row of a user that the first query did not find.
pub record SortedQueries {S : Type 0} (db : Database S) : Type 0 where
  pub rank : UserId → ℕ
  pub distinct : (u v : UserId) → rank u ≡ rank v → u ≡ v
  pub users_sorted :
      (c : Cond) (s : S) (users : List (UserRow × List GroupRow))
      → db.find_users c s ≡ ok users
      → Increasing rank (map user_and_groups users)
  pub rows_sorted :
      (c : Cond) (s : S) (rows : List UserAttributeRow)
      → db.find_user_attributes c s ≡ ok rows
      → SortedRows rank rows
  pub rows_owned :
      (c : Cond) (s : S) (users : List (UserRow × List GroupRow)) (rows : List UserAttributeRow)
      → db.find_users c s ≡ ok users
      → db.find_user_attributes c s ≡ ok rows
      → All (Owned rank (map user_and_groups users)) rows

module _ ⦃lib : External⦄ {S : Type 0} (db : Database S) where
  -- The same queries, and a lookup for each user.
  abbrev pub list_users_by_lookup : Option UserRequestFilter → Query S (List UserAndGroups)
  list_users_by_lookup filters s = do
    condition ← filter_or_all filters
    users ← db.find_users condition s
    attributes ← db.find_user_attributes condition s
    ok (map (with_own_rows attributes) (map user_and_groups users))

  -- When the two queries are sorted and select the same users, the one pass of `list_users` over the
  -- rows gives every user its own attributes and no others, as a lookup among all rows does.
  pub list_users-by_lookup :
      (filters : Option UserRequestFilter) (get_groups : Bool) (s : S)
      → SortedQueries db
      → list_users db filters get_groups s ≡ list_users_by_lookup filters s
  unfolding list_users
  list_users-by_lookup filters get_groups s q = >>=-agree (filter_or_all filters) _ _ λ c _.
      >>=-agree (db.find_users c s) _ _ λ users e.
        >>=-agree (db.find_user_attributes c s) _ _ λ rows k. ap ok (
          attach-own q.rank q.distinct (map user_and_groups users) rows (q.users_sorted c s users e)
            (q.rows_sorted c s rows k) (q.rows_owned c s users rows e k))
