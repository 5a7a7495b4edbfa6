-- ===== src/Text/Laws.antt =====
-- Equality and case of texts.
use lldap.Common.{ℕ, ◌≡◌, refl, sym, inl, inr, false, Bool-cases, ◌↔◌, true, [], ◌∷◌, ◌++◌, arith}
use lldap.Text.{Str, ◌==◌, lower_char, to_ascii_lowercase}

pub ==_sound : (s t : Str) → (s == t) ≡ true → s ≡ t
unfolding ◌==◌
==_sound [] [] h = refl
==_sound [] (b ∷ t) h = cc
==_sound (a ∷ s) [] h = cc
==_sound (a ∷ s) (b ∷ t) h = ground (arith, ==_sound s t)

pub ==_refl : (s : Str) → (s == s) ≡ true
unfolding ◌==◌
==_refl [] = refl
==_refl (a ∷ s) = ground (arith, ==_refl s)

pub ==_iff : (s t : Str) → ((s == t) ≡ true) ↔ (s ≡ t)
==_iff s t = (==_sound s t, λ e. rw e (==_refl t))

pub ==_differ : (s t : Str) → (s == t) ≡ false → (t == s) ≡ false
==_differ s t differ = elim (Bool-cases (t == s)) [
  | inl same ↦ let e : s ≡ t = sym (==_sound t s same) in cc (rw e at differ, ==_refl t)
  | inr h ↦ h
]

lower_char_idem : (c : ℕ) → lower_char (lower_char c) ≡ lower_char c
lower_char_idem c = ground arith

-- Lowering a text a second time changes nothing.
pub to_ascii_lowercase_idem :
    (s : Str) → to_ascii_lowercase (to_ascii_lowercase s) ≡ to_ascii_lowercase s
unfolding to_ascii_lowercase
to_ascii_lowercase_idem [] = refl
to_ascii_lowercase_idem (c ∷ s) = cc (lower_char_idem c, to_ascii_lowercase_idem s)

pub to_ascii_lowercase-append :
    (s t : Str) → to_ascii_lowercase (s ++ t) ≡ to_ascii_lowercase s ++ to_ascii_lowercase t
unfolding to_ascii_lowercase
to_ascii_lowercase-append [] t = refl
to_ascii_lowercase-append (c ∷ s) t = cc (to_ascii_lowercase-append s t)
