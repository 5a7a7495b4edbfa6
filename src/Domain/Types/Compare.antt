-- ===== src/Domain/Types/Compare.antt =====
-- The order and the equality of group names, emails and object classes
-- (`compare_str_case_insensitive` and `make_case_insensitive_comparable_string!`).
use Prim.Native.Nat.{compare, Ordering}
use mathlib.Core.List.{flat_map}
use lldap.Common.{◌≡◌, refl, Bool, true, false, [], ◌∷◌, ◌↔◌, arith}
use lldap.Text.{Str}
use lldap.Domain.Types.{External}

-- The loop over the two iterators of folded characters.
unfoldable pub compare_chars : Str → Str → Ordering
compare_chars [] [] = Ordering.eq
compare_chars [] (b ∷ t) = Ordering.lt
compare_chars (a ∷ s) [] = Ordering.gt
compare_chars (a ∷ s) (b ∷ t) = elim (compare a b) [
  | Ordering.eq ↦ compare_chars s t
  | Ordering.lt ↦ Ordering.lt
  | Ordering.gt ↦ Ordering.gt
]

abbrev pub is_equal : Ordering → Bool
is_equal Ordering.eq = true
is_equal _ = false

abbrev pub flip : Ordering → Ordering
flip Ordering.lt = Ordering.gt
flip Ordering.eq = Ordering.eq
flip Ordering.gt = Ordering.lt

pub compare_chars-flip : (s t : Str) → compare_chars t s ≡ flip (compare_chars s t)
unfolding compare_chars
compare_chars-flip [] [] = refl
compare_chars-flip [] (b ∷ t) = refl
compare_chars-flip (a ∷ s) [] = refl
compare_chars-flip (a ∷ s) (b ∷ t) = ground (arith, compare_chars-flip s t)

compare_chars-eq_sound : (s t : Str) → compare_chars s t ≡ Ordering.eq → s ≡ t
unfolding compare_chars
compare_chars-eq_sound [] [] h = refl
compare_chars-eq_sound [] (b ∷ t) h = cc
compare_chars-eq_sound (a ∷ s) [] h = cc
compare_chars-eq_sound (a ∷ s) (b ∷ t) h = ground (arith, compare_chars-eq_sound s t)

compare_chars_refl : (s : Str) → compare_chars s s ≡ Ordering.eq
unfolding compare_chars
compare_chars_refl [] = refl
compare_chars_refl (a ∷ s) = ground (arith, compare_chars_refl s)

module _ ⦃lib : External⦄ where
  -- `s.chars().flat_map(|c| c.to_lowercase())`
  unfoldable pub fold_case : Str → Str
  fold_case s = flat_map lib.char_to_lowercase s

  unfoldable pub compare_str_case_insensitive : Str → Str → Ordering
  compare_str_case_insensitive s1 s2 = compare_chars (fold_case s1) (fold_case s2)

  -- `PartialEq` of `GroupName`, `LdapObjectClass` and `Email`.
  unfoldable pub eq_ignore_case : Str → Str → Bool
  eq_ignore_case s1 s2 = is_equal (compare_str_case_insensitive s1 s2)

  -- Two names are equal exactly when their case foldings are the same text.
  pub eq_ignore_case_iff : (s t : Str) → (eq_ignore_case s t ≡ true) ↔ (fold_case s ≡ fold_case t)
  unfolding eq_ignore_case compare_str_case_insensitive
  eq_ignore_case_iff s t = (
    λ h. compare_chars-eq_sound (fold_case s) (fold_case t) (ground arith),
    λ e. rw (e, compare_chars_refl) refl,
  )

  -- The order of names is antisymmetric as an `Ord` has to be: swapping the arguments flips it.
  pub compare_swap :
      (s t : Str) → compare_str_case_insensitive t s ≡ flip (compare_str_case_insensitive s t)
  unfolding compare_str_case_insensitive
  compare_swap s t = compare_chars-flip (fold_case s) (fold_case t)
