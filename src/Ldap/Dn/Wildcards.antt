-- ===== src/Ldap/Dn/Wildcards.antt =====
-- Expanding the requested attributes: the special names go, each name stays once, none is lost.
use lldap.Common.{
  ◌≡◌, refl, inl, inr, Bool, true, false, not, ◌||◌, List, [], ◌∷◌, All, All-append, All-map, ◌⊎◌,
  any, any-append, retain, retain-All, arith, Bool-cases, if◌then◌else◌,
}
use lldap.Text.{Str, ◌==◌, to_ascii_lowercase}
use lldap.Text.Laws.{==_iff, ==_refl}
use lldap.Ldap.Dn.{is_wildcard, is_special, is_empty, unique_from, expand_attribute_wildcards}

-- The list has a name that is the given one up to case.
abbrev pub has_name : Str → List Str → Bool
has_name s xs = any (λ x. to_ascii_lowercase x == to_ascii_lowercase s) xs

-- No name twice, up to case.
abbrev pub HasDistinctNames : List Str → Type 0
HasDistinctNames [] = Unit
HasDistinctNames (x ∷ xs) = (has_name x xs ≡ false) × HasDistinctNames xs

module _ {κ} (P : Str → Type κ) where
  All-unique : (seen xs : List Str) → All P xs → All P (unique_from seen xs)
  unfolding unique_from
  All-unique seen [] _ = tt
  All-unique seen (x ∷ xs) (p, h) = elim (Bool-cases (any (λ k. k == to_ascii_lowercase x) seen)) [
    | inl old ↦ rw old (All-unique seen xs h)
    | inr new ↦ rw new (p, All-unique (to_ascii_lowercase x ∷ seen) xs h)
  ]

-- A key that is already seen is not taken again.
seen-absent :
    (seen xs : List Str) (s : Str)
    → any (λ k. k == to_ascii_lowercase s) seen ≡ true
    → has_name s (unique_from seen xs) ≡ false
unfolding unique_from
seen-absent seen [] s h = refl
seen-absent seen (x ∷ xs) s h = elim (Bool-cases (any (λ k. k == to_ascii_lowercase x) seen)) [
  | inl old ↦ rw old (seen-absent seen xs s h)
  | inr new ↦ elim (Bool-cases (to_ascii_lowercase x == to_ascii_lowercase s)) [
    | inl same ↦
        let e = (==_iff (to_ascii_lowercase x) (to_ascii_lowercase s)).0 same in
        let clash : any (λ k. k == to_ascii_lowercase s) seen ≡ false = rw e at new in cc
    | inr other ↦
        rw (new, other) (seen-absent (to_ascii_lowercase x ∷ seen) xs s (rw (other, h) refl))
  ]
]

unique-distinct : (seen xs : List Str) → HasDistinctNames (unique_from seen xs)
unfolding unique_from
unique-distinct seen [] = tt
unique-distinct seen (x ∷ xs) = elim (Bool-cases (any (λ k. k == to_ascii_lowercase x) seen)) [
  | inl old ↦ rw old (unique-distinct seen xs)
  | inr new ↦
      let key = to_ascii_lowercase x in
      rw new
        (seen-absent (key ∷ seen) xs x (rw (==_refl key) refl), unique-distinct (key ∷ seen) xs)
]

unique-has_name :
    (seen xs : List Str) (s : Str)
    → has_name s xs ≡ true
    → any (λ k. k == to_ascii_lowercase s) seen ≡ false
    → has_name s (unique_from seen xs) ≡ true
unfolding unique_from
unique-has_name seen [] s h n = cc
unique-has_name seen (x ∷ xs) s h n =
    elim (Bool-cases (any (λ k. k == to_ascii_lowercase x) seen)) [
      | inl old ↦ elim (Bool-cases (to_ascii_lowercase x == to_ascii_lowercase s)) [
        | inl same ↦
            let e = (==_iff (to_ascii_lowercase x) (to_ascii_lowercase s)).0 same in
            let clash : any (λ k. k == to_ascii_lowercase s) seen ≡ true = rw e at old in cc
        | inr other ↦ rw old (unique-has_name seen xs s (rw other at h) n)
      ]
      | inr new ↦ elim (Bool-cases (to_ascii_lowercase x == to_ascii_lowercase s)) [
        | inl same ↦ rw (new, same) refl
        | inr other ↦
            rw (new, other)
              (unique-has_name (to_ascii_lowercase x ∷ seen) xs s (rw other at h)
                (rw (other, n) refl))
      ]
    ]

retain-has_name :
    (s : Str) (xs : List Str)
    → is_special s ≡ false
    → any (λ x. x == s) xs ≡ true
    → has_name s (retain (λ x. not (is_special x)) xs) ≡ true
unfolding retain
retain-has_name s [] n h = cc
retain-has_name s (x ∷ xs) n h = elim (Bool-cases (x == s)) [
  | inl same ↦ rw ((==_iff x s).0 same, n, ==_refl (to_ascii_lowercase s)) refl
  | inr other ↦ ground (arith, retain-has_name s xs n (rw other at h))
]

has_name_of_mem : (s : Str) (xs : List Str) → any (λ x. x == s) xs ≡ true → has_name s xs ≡ true
has_name_of_mem s [] h = cc
has_name_of_mem s (x ∷ xs) h = elim (Bool-cases (x == s)) [
  | inl same ↦ rw ((==_iff x s).0 same, ==_refl (to_ascii_lowercase s)) refl
  | inr other ↦ ground (arith, has_name_of_mem s xs (rw other at h))
]

not-eq-true : (b : Bool) → not b ≡ true → b ≡ false
not-eq-true true h = cc
not-eq-true false h = refl

-- The expanded list of attributes names none twice, up to case.
pub expand-distinct :
    (attrs keys : List Str) → HasDistinctNames (expand_attribute_wildcards attrs keys)
unfolding expand_attribute_wildcards
expand-distinct attrs keys = unique-distinct [] _

All-if :
    (b : Bool) (xs : List Str)
    → All (λ x. is_special x ≡ false) xs
    → All (λ x. is_special x ≡ false) (if b then xs else [])
All-if true xs h = h
All-if false xs h = tt

-- Where no default attribute is one of the names "*", "+" and "1.1", none of these is left.
pub expand-no_special :
    (attrs keys : List Str)
    → All (λ x. is_special x ≡ false) keys
    → All (λ x. is_special x ≡ false) (expand_attribute_wildcards attrs keys)
unfolding expand_attribute_wildcards
expand-no_special attrs keys h = All-unique _ [] _ (
    All-append _ (retain (λ s. not (is_special s)) attrs) _
      (All-map (λ x. not-eq-true (is_special x)) _ (retain-All _ attrs))
      (All-if (any is_wildcard attrs || is_empty attrs) keys h))

-- No attribute that was asked for is lost, up to case, other than "*", "+" and "1.1"; nor, with "*"
-- or an empty request, any of the default ones.
pub expand-has_name :
    (attrs keys : List Str) (s : Str)
    → (any (λ x. x == s) attrs ≡ true) × (is_special s ≡ false)
      ⊎ ((any is_wildcard attrs || is_empty attrs) ≡ true) × (any (λ x. x == s) keys ≡ true)
    → has_name s (expand_attribute_wildcards attrs keys) ≡ true
unfolding expand_attribute_wildcards
expand-has_name attrs keys s (inl (h, n)) =
    unique-has_name [] _ s
      (rw
        (
          any-append (λ x. to_ascii_lowercase x == to_ascii_lowercase s)
              (retain (λ x. not (is_special x)) attrs),
          retain-has_name s attrs n h,
        )
        refl)
      refl
expand-has_name attrs keys s (inr (w, h)) =
    unique-has_name [] _ s
      (rw w (
        ground (
          arith,
          has_name_of_mem s keys h,
          any-append (λ x. to_ascii_lowercase x == to_ascii_lowercase s)
              (retain (λ x. not (is_special x)) attrs) keys,
        )))
      refl
