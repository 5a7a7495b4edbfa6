-- ===== src/Domain/Schema/Sorting.antt =====
-- The attributes of the public schema are sorted by name (server/src/domain/schema.rs).
use Prim.Native.Nat.{Ordering}
use mathlib.Core.List.{Perm}
use mathlib.Core.List.Perm
use lldap.Common.{
  ◌≡◌, refl, ◌⊎◌, Bool, true, false, List, [], ◌∷◌, ◌++◌, All, All-map, inl, inr, arith,
}
use lldap.Text.{Str}
use lldap.Domain.Types.Compare.{compare_chars, flip, compare_chars-flip}
use lldap.Domain.Handler.{AttributeSchema, Schema}
use lldap.Domain.Schema.{
  insert, sort_by_name, name_order, public_schema, hardcoded_user_attributes,
  hardcoded_group_attributes,
}

abbrev is_gt : Ordering → Bool
is_gt Ordering.gt = true
is_gt _ = false

-- The first name does not come after the second.
abbrev pub InOrder : AttributeSchema → AttributeSchema → Type 0
InOrder a b = is_gt (name_order a b) ≡ false

abbrev pub IsSorted : List AttributeSchema → Type 0
IsSorted [] = Unit
IsSorted (a ∷ as') = All (InOrder a) as' × IsSorted as'

compare_chars_trans :
    (s t u : Str)
    → is_gt (compare_chars s t) ≡ false
    → is_gt (compare_chars t u) ≡ false
    → is_gt (compare_chars s u) ≡ false
unfolding compare_chars
compare_chars_trans [] [] u h k = k
compare_chars_trans [] (b ∷ t) [] h k = refl
compare_chars_trans [] (b ∷ t) (c ∷ u) h k = refl
compare_chars_trans (a ∷ s) [] u h k = cc
compare_chars_trans (a ∷ s) (b ∷ t) [] h k = cc
compare_chars_trans (a ∷ s) (b ∷ t) (c ∷ u) h k = ground (arith, compare_chars_trans s t u)

gt-InOrder : (a b : AttributeSchema) → is_gt (name_order a b) ≡ true → InOrder b a
gt-InOrder a b h = rw (compare_chars-flip a.name b.name) (flipped (name_order a b) h)
  where
    flipped : (o : Ordering) → is_gt o ≡ true → is_gt (flip o) ≡ false
    flipped Ordering.lt h' = cc
    flipped Ordering.eq h' = refl
    flipped Ordering.gt h' = refl

-- Where the insertion puts the element, next to the first of the list.
insert-cons :
    (a b : AttributeSchema) (bs : List AttributeSchema) (o : Ordering)
    → name_order a b ≡ o
    → (InOrder a b × (insert a (b ∷ bs) ≡ a ∷ b ∷ bs))
      ⊎ (InOrder b a × (insert a (b ∷ bs) ≡ b ∷ insert a bs))
unfolding insert
insert-cons a b bs Ordering.lt e = inl (rw e refl, rw (e, insert) refl)
insert-cons a b bs Ordering.eq e = inl (rw e refl, rw (e, insert) refl)
insert-cons a b bs Ordering.gt e = inr (gt-InOrder a b (rw e refl), rw (e, insert) refl)

insert-All :
    (P : AttributeSchema → Type 0) (a : AttributeSchema) (bs : List AttributeSchema)
    → P a
    → All P bs
    → All P (insert a bs)
unfolding insert
insert-All P a [] p _ = (p, tt)
insert-All P a (b ∷ bs) p (q, qs) = elim (insert-cons a b bs (name_order a b) refl) [
  | inl (_, e) ↦ rw e (p, (q, qs))
  | inr (_, e) ↦ rw e (q, insert-All P a bs p qs)
]

insert-IsSorted :
    (a : AttributeSchema) (bs : List AttributeSchema) → IsSorted bs → IsSorted (insert a bs)
unfolding insert
insert-IsSorted a [] _ = (tt, tt)
insert-IsSorted a (b ∷ bs) (s, ss) = elim (insert-cons a b bs (name_order a b) refl) [
  | inl (h, e) ↦
      rw e ((h, All-map (λ c k. compare_chars_trans a.name b.name c.name h k) bs s), (s, ss))
  | inr (h, e) ↦ rw e (insert-All (InOrder b) a bs h s, insert-IsSorted a bs ss)
]

insert-Perm : (a : AttributeSchema) (bs : List AttributeSchema) → Perm (insert a bs) (a ∷ bs)
unfolding insert
insert-Perm a [] = Perm.refl (a ∷ [])
insert-Perm a (b ∷ bs) = elim (insert-cons a b bs (name_order a b) refl) [
  | inl (_, e) ↦ rw e (Perm.refl (a ∷ b ∷ bs))
  | inr (_, e) ↦ rw e (Perm.trans (Perm.cons b (insert-Perm a bs)) (Perm.swap a b bs))
]

sort_by_name-IsSorted : (as' : List AttributeSchema) → IsSorted (sort_by_name as')
unfolding sort_by_name
sort_by_name-IsSorted [] = tt
sort_by_name-IsSorted (a ∷ as') = insert-IsSorted a _ (sort_by_name-IsSorted as')

sort_by_name-Perm : (as' : List AttributeSchema) → Perm (sort_by_name as') as'
unfolding sort_by_name
sort_by_name-Perm [] = Perm.refl []
sort_by_name-Perm (a ∷ as') =
    Perm.trans (insert-Perm a (sort_by_name as')) (Perm.cons a (sort_by_name-Perm as'))

-- The attributes of the public schema, of users and of groups, are sorted by name, and are those of
-- the stored schema with the hard-coded ones, each as often as there.
pub public_schema-IsSorted :
    (s : Schema)
    → IsSorted (public_schema s).schema.user_attributes.attributes
      × Perm
          (public_schema s).schema.user_attributes.attributes
          (s.user_attributes.attributes ++ hardcoded_user_attributes)
      × IsSorted (public_schema s).schema.group_attributes.attributes
      × Perm
          (public_schema s).schema.group_attributes.attributes
          (s.group_attributes.attributes ++ hardcoded_group_attributes)
unfolding public_schema
public_schema-IsSorted s =
    let users = s.user_attributes.attributes ++ hardcoded_user_attributes in
    let groups = s.group_attributes.attributes ++ hardcoded_group_attributes in
    (
      sort_by_name-IsSorted users,
      sort_by_name-Perm users,
      sort_by_name-IsSorted groups,
      sort_by_name-Perm groups,
    )
