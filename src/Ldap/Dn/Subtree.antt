-- ===== src/Ldap/Dn/Subtree.antt =====
-- `is_subtree` decides that the base is the end of the name.
use lldap.Common.{
  ℕ, zero, suc, ◌-◌, ◌≤◌, ◌≡◌, refl, ◌∙◌, ap, true, false, some, [], ◌∷◌, ◌++◌, arith, ltb, length,
  all, length-append,
}
use lldap.Text.Laws.{==_iff, ==_refl}
use lldap.Ldap.Dn.{DnParts, rdn_is_lower, same_from, drop, is_subtree}

same_from_sound : (s b : DnParts) → length s ≡ length b → same_from s b ≡ true → s ≡ b
unfolding same_from
same_from_sound [] [] n h = refl
same_from_sound (p ∷ s) [] n h = absurd (omega arith)
same_from_sound [] (q ∷ b) n h = cc
same_from_sound ((k, v) ∷ s) ((l, w) ∷ b) n h =
    ground (arith, same_from_sound s b, ==_iff k l, ==_iff v w)

same_from_refl : (b : DnParts) → same_from b b ≡ true
unfolding same_from
same_from_refl [] = refl
same_from_refl ((k, v) ∷ b) = rw (==_refl k, ==_refl v) (same_from_refl b)

drop-suffix :
    (n : ℕ) (s : DnParts)
    → n ≤ length s
    → (above : DnParts) × (s ≡ above ++ drop n s) × (length (drop n s) ≡ length s - n)
unfolding drop
drop-suffix zero s h = ([], refl, omega arith)
drop-suffix (suc n) [] h = absurd (omega arith)
drop-suffix (suc n) (p ∷ s) h =
    let (above, e, l) = drop-suffix n s (omega arith) in (p ∷ above, ap (λ t. p ∷ t) e, omega arith)

drop-append : (s b : DnParts) → drop (length s) (s ++ b) ≡ b
unfolding drop
drop-append [] b = refl
drop-append (p ∷ s) b = drop-append s b

-- A name accepted as part of a tree ends in the base of the tree.
pub is_subtree_sound :
    (subtree base : DnParts)
    → is_subtree subtree base ≡ some true
    → (above : DnParts) × (subtree ≡ above ++ base)
unfolding is_subtree
is_subtree_sound s b h =
    let n = length s - length b in
    let fits : length b ≤ length s = ground arith in
    let (above, e, l) = drop-suffix n s (omega arith) in
    let same : same_from (drop n s) b ≡ true = ground arith in
    (above, e ∙ ap (λ (t : DnParts). above ++ t) (same_from_sound (drop n s) b (omega arith) same))

-- A name in lower case that ends in the base, in lower case too, is accepted.
pub is_subtree_complete :
    (above base : DnParts)
    → all rdn_is_lower (above ++ base) ≡ true
    → all rdn_is_lower base ≡ true
    → is_subtree (above ++ base) base ≡ some true
unfolding is_subtree
is_subtree_complete above b la lb =
    let n : length (above ++ b) - length b ≡ length above = omega (arith, length-append above b) in
    let short : ltb (length (above ++ b)) (length b) ≡ false =
      ground (arith, length-append above b) in
    rw (la, lb, short, n, drop-append above b, same_from_refl b)
