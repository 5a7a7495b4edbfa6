-- ===== src/Storage/Attached.antt =====
-- `list_users` of server/src/domain/sql_user_backend_handler.rs gives each user its attributes in one
-- pass over two sorted results. Here that pass is compared with a lookup for each user.
use lldap.Common.{
  ℕ, ◌≤◌, ◌<◌, ◌≡◌, refl, sym, ap, inl, inr, Bool, true, false, List, [], ◌∷◌, map, All, All-map,
  All-zip, map_agree, any, retain, Bool-cases, nat_eq, arith,
}
use lldap.Text.{◌==◌}
use lldap.Text.Laws.{==_sound, ==_refl, ==_differ}
use lldap.Domain.Types.{UserId, UserAndGroups}
use lldap.Storage.{UserAttributeRow}
use lldap.Storage.UserRows.{take_user_rows, skip_user_rows, attach_user_attributes, with_attributes}

abbrev is_of : UserId → UserAttributeRow → Bool
is_of u row = row.user_id == u

-- The reference: all the rows of the user, wherever they stand.
abbrev pub with_own_rows : List UserAttributeRow → UserAndGroups → UserAndGroups
with_own_rows rows u = with_attributes u (retain (is_of u.user.user_id) rows)

-- The order in which the database sorts users, as a number for each.
module _ (rank : UserId → ℕ) where
  abbrev pub Above : ℕ → UserAttributeRow → Type 0
  Above n row = n < rank row.user_id

  abbrev pub NotBelow : ℕ → UserAttributeRow → Type 0
  NotBelow n row = n ≤ rank row.user_id

  abbrev pub SortedRows : List UserAttributeRow → Type 0
  SortedRows [] = Unit
  SortedRows (row ∷ rows) = All (NotBelow (rank row.user_id)) rows × SortedRows rows

  abbrev pub After : ℕ → UserAndGroups → Type 0
  After n u = n < rank u.user.user_id

  abbrev pub Increasing : List UserAndGroups → Type 0
  Increasing [] = Unit
  Increasing (u ∷ us) = All (After (rank u.user.user_id)) us × Increasing us

  -- The row belongs to one of the users.
  abbrev pub Owned : List UserAndGroups → UserAttributeRow → Type 0
  Owned us row = any (λ u. u.user.user_id == row.user_id) us ≡ true

  differ_of_rank : (u v : UserId) → rank u < rank v → (v == u) ≡ false
  differ_of_rank u v h = elim (Bool-cases (v == u)) [
    | inl same ↦ let e : rank v ≡ rank u = ap rank (==_sound v u same) in ground arith
    | inr differ ↦ differ
  ]

  retain-Above :
      (u : UserId) (rows : List UserAttributeRow)
      → All (Above (rank u)) rows
      → retain (is_of u) rows ≡ []
  unfolding retain
  retain-Above u [] _ = refl
  retain-Above u (row ∷ rows) (h, hs) =
      rw (differ_of_rank u row.user_id h, retain-Above u rows hs) refl

  -- The rows of the other users are those that stay in the iterator.
  retain_skip :
      (u v : UserId) (rows : List UserAttributeRow)
      → (v == u) ≡ false
      → retain (is_of v) (skip_user_rows u rows) ≡ retain (is_of v) rows
  unfolding retain skip_user_rows
  retain_skip u v [] differ = refl
  retain_skip u v (row ∷ rows) differ = elim (Bool-cases (row.user_id == u)) [
    | inl same ↦
        (let e : row.user_id ≡ u = ==_sound row.user_id u same in
          rw (same, e, ==_differ v u differ) (retain_skip u v rows differ))
    | inr other ↦ rw other refl
  ]

  All-skip :
      (P : UserAttributeRow → Type 0) (u : UserId) (rows : List UserAttributeRow)
      → All P rows
      → All P (skip_user_rows u rows)
  unfolding skip_user_rows
  All-skip P u [] _ = tt
  All-skip P u (row ∷ rows) (h, hs) = ground (arith, All-skip P u rows hs)

  skip-SortedRows :
      (u : UserId) (rows : List UserAttributeRow)
      → SortedRows rows
      → SortedRows (skip_user_rows u rows)
  unfolding skip_user_rows
  skip-SortedRows u [] _ = tt
  skip-SortedRows u (row ∷ rows) (h, hs) = elim (Bool-cases (row.user_id == u)) [
    | inl same ↦ rw same (skip-SortedRows u rows hs)
    | inr other ↦ rw other (h, hs)
  ]

  module _ (distinct : (u v : UserId) → rank u ≡ rank v → u ≡ v) where
    rank_above : (u v : UserId) → rank u ≤ rank v → (v == u) ≡ false → rank u < rank v
    rank_above u v h differ = elim (Bool-cases (nat_eq (rank u) (rank v))) [
      | inl tie ↦
          (let e : rank u ≡ rank v = ground arith in
            let same : v ≡ u = sym (distinct u v e) in
            let no : (u == u) ≡ false = rw same at differ in ground (arith, ==_refl u))
      | inr apart ↦ ground arith
    ]

    skip-Above :
        (u : UserId) (rows : List UserAttributeRow)
        → SortedRows rows
        → All (NotBelow (rank u)) rows
        → All (Above (rank u)) (skip_user_rows u rows)
    unfolding skip_user_rows
    skip-Above u [] _ _ = tt
    skip-Above u (row ∷ rows) (s, ss) (h, hs) = elim (Bool-cases (row.user_id == u)) [
      | inl same ↦ rw same (skip-Above u rows ss hs)
      | inr other ↦
          (let above : rank u < rank row.user_id = rank_above u row.user_id h other in
            rw other (above, All-map (λ r k. omega arith) rows s))
    ]

    take-retain :
        (u : UserId) (rows : List UserAttributeRow)
        → SortedRows rows
        → All (NotBelow (rank u)) rows
        → take_user_rows u rows ≡ retain (is_of u) rows
    unfolding take_user_rows retain
    take-retain u [] _ _ = refl
    take-retain u (row ∷ rows) (s, ss) (h, hs) = elim (Bool-cases (row.user_id == u)) [
      | inl same ↦ rw (same, take-retain u rows ss hs) refl
      | inr other ↦
          (let above : rank u < rank row.user_id = rank_above u row.user_id h other in
            rw (other, retain-Above u rows (All-map (λ r k. omega arith) rows s)) refl)
    ]

    Owned-After :
        (n : ℕ) (us : List UserAndGroups) (row : UserAttributeRow)
        → All (After n) us
        → Owned us row
        → n < rank row.user_id
    Owned-After n [] row _ h = cc
    Owned-After n (u ∷ us) row (after, afters) h =
        elim (Bool-cases (u.user.user_id == row.user_id)) [
          | inl same ↦
              (let e : rank u.user.user_id ≡ rank row.user_id = ap rank (==_sound _ _ same) in
                omega arith)
          | inr other ↦ Owned-After n us row afters (rw other at h)
        ]

    -- Each row is that of the first user or of a later one.
    Owned-NotBelow :
        (u : UserAndGroups) (us : List UserAndGroups) (row : UserAttributeRow)
        → All (After (rank u.user.user_id)) us
        → Owned (u ∷ us) row
        → NotBelow (rank u.user.user_id) row
    Owned-NotBelow u us row after h = elim (Bool-cases (u.user.user_id == row.user_id)) [
      | inl same ↦
          (let e : rank u.user.user_id ≡ rank row.user_id = ap rank (==_sound _ _ same) in
            omega arith)
      | inr other ↦
          (let above : rank u.user.user_id < rank row.user_id =
              Owned-After _ us row after (rw other at h) in
            omega arith)
    ]

    Owned-later :
        (u : UserAndGroups) (us : List UserAndGroups) (row : UserAttributeRow)
        → Owned (u ∷ us) row
        → Above (rank u.user.user_id) row
        → Owned us row
    Owned-later u us row h above =
        let differ : (u.user.user_id == row.user_id) ≡ false =
          ==_differ row.user_id u.user.user_id (differ_of_rank u.user.user_id row.user_id above) in
        rw differ at h

    pub attach-own :
        (us : List UserAndGroups) (rows : List UserAttributeRow)
        → Increasing us
        → SortedRows rows
        → All (Owned us) rows
        → attach_user_attributes us rows ≡ map (with_own_rows rows) us
    unfolding attach_user_attributes
    attach-own [] rows _ _ _ = refl
    attach-own (u ∷ us) rows (after, inc) sorted owned =
        let id : UserId = u.user.user_id in
        let low : All (NotBelow (rank id)) rows =
          All-map (λ row h. Owned-NotBelow u us row after h) rows owned in
        let later : All (Owned us) (skip_user_rows id rows) =
          All-zip (skip_user_rows id rows) (λ row. Owned-later u us row)
            (All-skip (Owned (u ∷ us)) id rows owned) (skip-Above id rows sorted low) in
        let rest : attach_user_attributes us (skip_user_rows id rows)
            ≡ map (with_own_rows (skip_user_rows id rows)) us =
          attach-own us (skip_user_rows id rows) inc (skip-SortedRows id rows sorted) later in
        let alike : map (with_own_rows (skip_user_rows id rows)) us ≡ map (with_own_rows rows) us =
          map_agree _ _ us (
            All-map
              (λ v h.
                ap (with_attributes v)
                  (retain_skip id v.user.user_id rows (differ_of_rank id v.user.user_id h)))
              us after) in
        rw (take-retain id rows sorted low, rest, alike) refl
