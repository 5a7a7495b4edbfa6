-- ===== src/Ldap/Dn/Totality.antt =====
-- The assertions on letter case hold wherever the program lowers a name first.
use lldap.Common.{
  ℕ, ◌+◌, ◌≡◌, refl, inl, inr, Bool, true, false, List, [], ◌∷◌, map, All, all, length, nat_eq,
  arith, Bool-cases,
}
use lldap.Common.Result.{traverse, Ends, Ends-bind}
use lldap.Text.{
  Str, lower_char, to_ascii_lowercase, is_whitespace, split, push_front, drop_blank, trim_start,
  trim_end, trim,
}
use lldap.Text.Laws.{==_refl}
use lldap.Ldap.Error.{Message, unexpected_dn_format}
use lldap.Ldap.Dn.{
  Rdn, DnParts, rdn_is_lower, make_dn_pair, dn_elements, parse_rdn, parse_distinguished_name,
  is_subtree, ou_of, check_id_parts, check_entry, get_id_from_distinguished_name,
  get_user_id_from_distinguished_name, get_group_id_from_distinguished_name,
}

abbrev pub IsLower : Str → Type 0
IsLower s = to_ascii_lowercase s ≡ s

-- Letter by letter, which the loops over a text keep.
abbrev EachLower : Str → Type 0
EachLower s = All (λ c. lower_char c ≡ c) s

each_of_lower : (s : Str) → IsLower s → EachLower s
unfolding to_ascii_lowercase
each_of_lower [] h = tt
each_of_lower (c ∷ s) h = (cc, each_of_lower s (cc))

IsLower-of_each : (s : Str) → EachLower s → IsLower s
unfolding to_ascii_lowercase
IsLower-of_each [] h = refl
IsLower-of_each (c ∷ s) (e, h) = cc (IsLower-of_each s h)

split-lower : (sep : ℕ) (s : Str) → EachLower s → All EachLower (split sep s)
unfolding split
split-lower sep [] h = (tt, tt)
split-lower sep (c ∷ s) (e, h) = elim (Bool-cases (nat_eq c sep)) [
  | inl cut ↦ rw cut (tt, split-lower sep s h)
  | inr kept ↦ rw kept (push_front-lower c (split sep s) e (split-lower sep s h))
]
  where
    push_front-lower :
        (c : ℕ) (ps : List Str)
        → lower_char c ≡ c
        → All EachLower ps
        → All EachLower (push_front c ps)
    push_front-lower c [] e h = ((e, tt), tt)
    push_front-lower c (p ∷ ps) e (h, hs) = ((e, h), hs)

trim_start-lower : (s : Str) → EachLower s → EachLower (trim_start s)
unfolding trim_start
trim_start-lower [] h = tt
trim_start-lower (c ∷ s) (e, h) = elim (Bool-cases (is_whitespace c)) [
  | inl blank ↦ rw blank (trim_start-lower s h)
  | inr solid ↦ rw solid (e, h)
]

drop_blank-lower : (c : ℕ) (s : Str) → lower_char c ≡ c → EachLower s → EachLower (drop_blank c s)
drop_blank-lower c [] e h = elim (Bool-cases (is_whitespace c)) [
  | inl blank ↦ rw blank tt
  | inr solid ↦ rw solid (e, tt)
]
drop_blank-lower c (d ∷ s) e h = (e, h)

trim_end-lower : (s : Str) → EachLower s → EachLower (trim_end s)
unfolding trim_end
trim_end-lower [] h = tt
trim_end-lower (c ∷ s) (e, h) = drop_blank-lower c (trim_end s) e (trim_end-lower s h)

trim-lower : (s : Str) → EachLower s → EachLower (trim s)
unfolding trim
trim-lower s h = trim_end-lower (trim_start s) (trim_start-lower s h)

map-trim-lower : (ss : List Str) → All EachLower ss → All EachLower (map trim ss)
map-trim-lower [] _ = tt
map-trim-lower (s ∷ ss) (h, hs) = (trim-lower s h, map-trim-lower ss hs)

abbrev IsLowerRdn : Rdn → Type 0
IsLowerRdn p = rdn_is_lower p ≡ true

rdn_of_each : (k v : Str) → EachLower k → EachLower v → rdn_is_lower (k, v) ≡ true
rdn_of_each k v hk hv = rw (IsLower-of_each k hk, IsLower-of_each v hv, ==_refl k, ==_refl v) refl

make_dn_pair-Ends : (es : List Str) → All EachLower es → Ends IsLowerRdn (make_dn_pair es)
unfolding make_dn_pair
make_dn_pair-Ends [] h = tt
make_dn_pair-Ends (k ∷ []) h = tt
make_dn_pair-Ends (k ∷ v ∷ []) (hk, (hv, _)) = rdn_of_each k v hk hv
make_dn_pair-Ends (k ∷ v ∷ e ∷ es) h = tt

traverse-Ends :
    (ss : List Str)
    → All EachLower ss
    → Ends (λ ps. all rdn_is_lower ps ≡ true) (traverse parse_rdn ss)
unfolding traverse
traverse-Ends [] h = refl
traverse-Ends (s ∷ ss) (h, hs) =
    Ends-bind IsLowerRdn _ (parse_rdn s) _
      (make_dn_pair-Ends (dn_elements s) (map-trim-lower _ (split-lower b'=' s h)))
      (λ p e.
        Ends-bind (λ ps. all rdn_is_lower ps ≡ true) _ (traverse parse_rdn ss) _
          (traverse-Ends ss hs) (λ ps e'. rw (e, e') refl))

-- A lower-case name parses without a panic, into lower-case attributes.
pub parse-Ends :
    (dn : Str) → IsLower dn → Ends (λ ps. all rdn_is_lower ps ≡ true) (parse_distinguished_name dn)
unfolding parse_distinguished_name
parse-Ends dn h =
    rw (h, ==_refl dn, parse_distinguished_name)
      (traverse-Ends (split b',' dn) (split-lower b',' dn (each_of_lower dn h)))

check_id_parts-Ends :
    (parts : DnParts) (ou : Str) (n : ℕ) (m : Message)
    → length parts ≡ n + 2
    → Ends (λ _. Unit {0}) (check_id_parts parts ou m)
unfolding check_id_parts
check_id_parts-Ends [] ou n m h = absurd (omega arith)
check_id_parts-Ends (p ∷ []) ou n m h = absurd (omega arith)
check_id_parts-Ends (p ∷ q ∷ rest) ou n m h = ground arith

check_entry-Ends :
    (parts : DnParts) (dn : Str) (base : DnParts) (base_str : Str) (is_group : Bool)
    → all rdn_is_lower base ≡ true
    → all rdn_is_lower parts ≡ true
    → Ends (λ _. Unit {0}) (check_entry parts dn base base_str is_group)
unfolding check_entry is_subtree
check_entry-Ends parts dn base base_str g hb hp =
    let m = unexpected_dn_format dn (ou_of g) base_str in
    ground (arith, check_id_parts-Ends parts (ou_of g) (length base) m)

-- Reading an id from a lower-case name under a lower-case base never panics.
pub get_id-Ends :
    (dn : Str) (base : DnParts) (base_str : Str) (is_group : Bool)
    → IsLower dn
    → all rdn_is_lower base ≡ true
    → Ends (λ _. Unit {0}) (get_id_from_distinguished_name dn base base_str is_group)
unfolding get_id_from_distinguished_name
get_id-Ends dn base base_str g h hb =
    Ends-bind (λ ps. all rdn_is_lower ps ≡ true) (λ _. Unit {0}) (parse_distinguished_name dn) _
      (parse-Ends dn h) (λ ps hp. check_entry-Ends ps dn base base_str g hb hp)

pub get_user_id-Ends :
    (dn : Str) (base : DnParts) (base_str : Str)
    → IsLower dn
    → all rdn_is_lower base ≡ true
    → Ends (λ _. Unit {0}) (get_user_id_from_distinguished_name dn base base_str)
unfolding get_user_id_from_distinguished_name
get_user_id-Ends dn base base_str h hb =
    Ends-bind (λ _. Unit {0}) _ _ _ (get_id-Ends dn base base_str false h hb) (λ id _. tt)

pub get_group_id-Ends :
    (dn : Str) (base : DnParts) (base_str : Str)
    → IsLower dn
    → all rdn_is_lower base ≡ true
    → Ends (λ _. Unit {0}) (get_group_id_from_distinguished_name dn base base_str)
unfolding get_group_id_from_distinguished_name
get_group_id-Ends dn base base_str h hb = get_id-Ends dn base base_str true h hb
