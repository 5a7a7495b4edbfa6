-- ===== src/Text/Split.antt =====
-- `str::split` undoes `join` where no part holds the separator.
use lldap.Common.{ℕ, ◌≡◌, refl, ap, ◌∙◌, false, List, [], ◌∷◌, ◌++◌, All, nat_eq, arith}
use lldap.Text.{Str, split, join}

-- The text does not hold the character.
abbrev pub Lacks : ℕ → Str → Type 0
Lacks sep s = All (λ c. nat_eq c sep ≡ false) s

pub split_of_Lacks : (sep : ℕ) (s : Str) → Lacks sep s → split sep s ≡ s ∷ []
unfolding split
split_of_Lacks sep [] _ = refl
split_of_Lacks sep (c ∷ s) (h, hs) = rw (h, split_of_Lacks sep s hs) refl

-- The text before the first separator is the first part.
pub split-append : (sep : ℕ) (s t : Str) → Lacks sep s → split sep (s ++ sep ∷ t) ≡ s ∷ split sep t
unfolding split
split-append sep [] t _ = ground arith
split-append sep (c ∷ s) t (h, hs) = rw (h, split-append sep s t hs) refl

pub split-join :
    (sep : ℕ) (s : Str) (parts : List Str)
    → All (Lacks sep) (s ∷ parts)
    → split sep (join (sep ∷ []) (s ∷ parts)) ≡ s ∷ parts
unfolding join
split-join sep s [] (h, _) = split_of_Lacks sep s h
split-join sep s (t ∷ ts) (h, hs) =
    split-append sep s (join (sep ∷ []) (t ∷ ts)) h
    ∙ ap (λ (ps : List Str). s ∷ ps) (split-join sep t ts hs)
