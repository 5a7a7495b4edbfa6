-- ===== src/Ldap/Dn/Parsing.antt =====
-- Parsing a distinguished name: the round trip with printing, and the panic of the assertion.
use lldap.Common.{◌≡◌, refl, ◌∙◌, ◌↔◌, false, List, [], ◌∷◌, ◌++◌, map, All, All-append, arith}
use lldap.Common.Result.{ok, panic, traverse}
use lldap.Text.{Str, ◌==◌, split, trim, join, to_ascii_lowercase}
use lldap.Text.Laws.{==_refl, to_ascii_lowercase-append}
use lldap.Text.Split.{Lacks, split_of_Lacks, split-append, split-join}
use lldap.Ldap.Dn.{Rdn, DnParts, dn_elements, make_dn_pair, parse_rdn, parse_distinguished_name}

-- An attribute or a value that a name can hold as it stands.
pub record IsPlain (s : Str) : Type 0 where
  pub no_comma : Lacks b',' s
  pub no_equals : Lacks b'=' s
  pub trimmed : trim s ≡ s
  pub lowered : to_ascii_lowercase s ≡ s

abbrev pub IsPlainRdn : Rdn → Type 0
IsPlainRdn p = IsPlain p.0 × IsPlain p.1

unfoldable pub print_rdn : Rdn → Str
print_rdn p = p.0 ++ b'=' ∷ p.1

unfoldable pub print_dn : DnParts → Str
unfolding print_rdn
print_dn parts = join (b',' ∷ []) (map print_rdn parts)

pub parse_rdn-print_rdn : (p : Rdn) → IsPlainRdn p → parse_rdn (print_rdn p) ≡ ok p
unfolding print_rdn make_dn_pair
parse_rdn-print_rdn (k, v) (hk, hv) =
    rw
      (
        split-append b'=' k v hk.no_equals,
        split_of_Lacks b'=' v hv.no_equals,
        hk.trimmed,
        hv.trimmed,
      )
      refl

print_rdn-Lacks : (p : Rdn) → IsPlainRdn p → Lacks b',' (print_rdn p)
unfolding print_rdn
print_rdn-Lacks (k, v) (hk, hv) = All-append _ k (b'=' ∷ v) hk.no_comma (refl, hv.no_comma)

print_rdn-lowered : (p : Rdn) → IsPlainRdn p → to_ascii_lowercase (print_rdn p) ≡ print_rdn p
unfolding print_rdn to_ascii_lowercase
print_rdn-lowered (k, v) (hk, hv) =
    rw (to_ascii_lowercase-append k (b'=' ∷ v), hk.lowered, hv.lowered) refl

map-Lacks : (ps : DnParts) → All IsPlainRdn ps → All (Lacks b',') (map print_rdn ps)
map-Lacks [] _ = tt
map-Lacks (p ∷ ps) (h, hs) = (print_rdn-Lacks p h, map-Lacks ps hs)

print_dn-lowered :
    (ps : DnParts) → All IsPlainRdn ps → to_ascii_lowercase (print_dn ps) ≡ print_dn ps
unfolding print_dn join to_ascii_lowercase
print_dn-lowered [] _ = refl
print_dn-lowered (p ∷ []) (h, _) = print_rdn-lowered p h
print_dn-lowered (p ∷ q ∷ ps) (h, hs) =
    to_ascii_lowercase-append (print_rdn p) (b',' ∷ print_dn (q ∷ ps))
    ∙ cc (print_rdn-lowered p h, print_dn-lowered (q ∷ ps) hs)

traverse-parse : (ps : DnParts) → All IsPlainRdn ps → traverse parse_rdn (map print_rdn ps) ≡ ok ps
unfolding traverse
traverse-parse [] _ = refl
traverse-parse (p ∷ ps) (h, hs) = rw (parse_rdn-print_rdn p h, traverse-parse ps hs) refl

-- Parsing gives back every non-empty name of plain attributes from its printed form.
pub parse-print_dn :
    (p : Rdn) (ps : DnParts)
    → All IsPlainRdn (p ∷ ps)
    → parse_distinguished_name (print_dn (p ∷ ps)) ≡ ok (p ∷ ps)
unfolding parse_distinguished_name
parse-print_dn p ps h =
    rw (print_dn-lowered (p ∷ ps) h, ==_refl (print_dn (p ∷ ps)))
      (unfold print_dn in
        rw (split-join b',' (print_rdn p) (map print_rdn ps) (map-Lacks (p ∷ ps) h))
          (traverse-parse (p ∷ ps) h))

make_dn_pair-no_panic : (es : List Str) → make_dn_pair es ≡ panic → ⊥
unfolding make_dn_pair
make_dn_pair-no_panic [] h = cc
make_dn_pair-no_panic (k ∷ []) h = cc
make_dn_pair-no_panic (k ∷ v ∷ []) h = cc
make_dn_pair-no_panic (k ∷ v ∷ e ∷ rest) h = cc

traverse-no_panic : (ss : List Str) → traverse parse_rdn ss ≡ panic → ⊥
unfolding traverse
traverse-no_panic [] h = cc
traverse-no_panic (s ∷ ss) h =
    ground (arith, make_dn_pair-no_panic (dn_elements s), traverse-no_panic ss)

-- Parsing panics exactly on the texts that hold an upper-case ASCII letter.
pub parse_distinguished_name-panic_iff :
    (dn : Str) → (parse_distinguished_name dn ≡ panic) ↔ ((dn == to_ascii_lowercase dn) ≡ false)
unfolding parse_distinguished_name
parse_distinguished_name-panic_iff dn = ground (arith, traverse-no_panic (split b',' dn))
