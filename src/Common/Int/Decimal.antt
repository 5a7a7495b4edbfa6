-- ===== src/Common/Int/Decimal.antt =====
-- The decimal form of a number of 64 bits is read back as that number.
use Prim.Native.Nat.{ℕ, zero, suc, ◌+◌, ◌-◌, ◌*◌, ◌/◌, ◌%◌, ◌^◌, ◌≤◌, ◌<◌}
use mathlib.Core.Path.{◌≡◌, refl, subst}
use mathlib.Core.Logic.{inl, inr}
use mathlib.Core.Bool.{Bool, true, false}
use mathlib.Core.Option.{some}
use mathlib.Core.List.{List, [], ◌∷◌, ◌++◌}
use native.Mathlib.Omega.{arith}
use lldap.Common.Tests.{leb, ltb, nat_eq, Bool-cases, Option-cases}
use lldap.Common.Int.{
  ℤ, pos, negsuc, parse_digits, in_i64, parse_magnitude, parse_i64, digits, to_decimal,
}

-- The number is one of 64 bits with a sign; `negsuc n` is -(n + 1).
abbrev pub InI64 : ℤ → Type 0
InI64 (pos n) = n < 2 ^ 63
InI64 (negsuc n) = n < 2 ^ 63

-- How large a number may be for its digits to be printed with some fuel.
abbrev bound : ℕ → ℕ
bound zero = 1
bound (suc fuel) = 10 * bound fuel

-- A digit after a text of digits.
parse_digits-last :
    (a m d : ℕ) (s : List ℕ)
    → d < 10
    → parse_digits a s ≡ some m
    → parse_digits a (s ++ (b'0' + d) ∷ []) ≡ some (m * 10 + d)
unfolding parse_digits
parse_digits-last a m d [] h e = ground arith
parse_digits-last a m d (c ∷ s) h e =
    ground (arith, parse_digits-last (a * 10 + (c - b'0')) m d s h)

parse-digits : (fuel n : ℕ) → n < bound (suc fuel) → parse_digits 0 (digits (suc fuel) n) ≡ some n
unfolding digits parse_digits
parse-digits zero n h = let small : ltb n 10 ≡ true = ground arith in rw small (ground arith)
parse-digits (suc fuel) n h = elim (Bool-cases (ltb n 10)) [
  | inl small ↦ rw small (ground arith)
  | inr large ↦
      (let less : n / 10 < bound (suc fuel) = omega arith in
        let front : parse_digits 0 (digits (suc fuel) (n / 10)) ≡ some (n / 10) =
          parse-digits fuel (n / 10) less in
        let exact : n / 10 * 10 + n % 10 ≡ n = omega arith in
        rw large (
          rw
            (parse_digits-last 0 (n / 10) (n % 10) (digits (suc fuel) (n / 10)) (omega arith) front)
            (rw exact refl)))
]

-- The digits of a number begin with a digit.
abbrev StartsWithDigit : List ℕ → Type 0
StartsWithDigit s = (c : ℕ) × (rest : List ℕ) × (s ≡ c ∷ rest) × (b'0' ≤ c)

digits-StartsWithDigit : (fuel n : ℕ) → StartsWithDigit (digits (suc fuel) n)
unfolding digits
digits-StartsWithDigit zero n = elim (Bool-cases (ltb n 10)) [
  | inl small ↦ rw small (b'0' + n, [], refl, omega arith)
  | inr large ↦ rw large (b'0' + n % 10, [], refl, omega arith)
]
digits-StartsWithDigit (suc fuel) n = elim (Bool-cases (ltb n 10)) [
  | inl small ↦ rw small (b'0' + n, [], refl, omega arith)
  | inr large ↦
      (let (c, rest, e, h) = digits-StartsWithDigit fuel (n / 10) in
        rw (large, e) (c, rest ++ (b'0' + n % 10) ∷ [], refl, h))
]

parse_magnitude-digits :
    (minus : Bool) (n : ℕ) → n < 2 ^ 64 → parse_magnitude minus (digits 20 n) ≡ in_i64 minus n
unfolding parse_magnitude
parse_magnitude-digits minus n h =
    let (c, rest, e, k) = digits-StartsWithDigit 19 n in
    let read : parse_digits 0 (digits 20 n) ≡ some n = parse-digits 19 n (omega arith) in
    let whole : parse_digits 0 (c ∷ rest) ≡ some n = (rw e at read) in
    rw (e, whole, parse_magnitude) refl

-- A number of 64 bits with a sign is read back from its decimal form.
pub parse-to_decimal : (z : ℤ) → InI64 z → parse_i64 (to_decimal z) ≡ some z
unfolding parse_i64 to_decimal
parse-to_decimal (pos n) h =
    let (c, rest, e, k) = digits-StartsWithDigit 19 n in
    let read : parse_magnitude false (digits 20 n) ≡ in_i64 false n =
      parse_magnitude-digits false n (omega arith) in
    let whole : parse_magnitude false (c ∷ rest) ≡ in_i64 false n = (rw e at read) in
    let plain : nat_eq c b'-' ≡ false = ground arith in
    let unsigned : nat_eq c b'+' ≡ false = ground arith in
    rw (e, plain, unsigned, whole) (ground arith)
parse-to_decimal (negsuc n) h =
    rw (parse_magnitude-digits true (n + 1) (omega arith)) (ground arith)

in_i64-InI64 : (minus : Bool) (n : ℕ) (z : ℤ) → in_i64 minus n ≡ some z → InI64 z
in_i64-InI64 true zero z h = let same : pos 0 ≡ z = cc h in subst InI64 same (omega arith)
in_i64-InI64 true (suc n) z h = elim (Bool-cases (leb (suc n) (2 ^ 63))) [
  | inl fits ↦
      (let positive : nat_eq (suc n) 0 ≡ false = ground arith in
        let back : suc n - 1 ≡ n = omega arith in
        let same : negsuc n ≡ z = cc (back, rw (fits, positive) at h) in
        subst InI64 same (ground arith))
  | inr large ↦ cc (rw large at h)
]
in_i64-InI64 false n z h = elim (Bool-cases (ltb n (2 ^ 63))) [
  | inl fits ↦ let same : pos n ≡ z = cc (rw fits at h) in subst InI64 same (ground arith)
  | inr large ↦ cc (rw large at h)
]

parse_magnitude-InI64 :
    (minus : Bool) (s : List ℕ) (z : ℤ) → parse_magnitude minus s ≡ some z → InI64 z
unfolding parse_magnitude
parse_magnitude-InI64 minus [] z h = cc h
parse_magnitude-InI64 minus (c ∷ s) z h = elim (Option-cases (parse_digits 0 (c ∷ s))) [
  | inl e ↦ cc (rw (e, parse_magnitude) at h)
  | inr (n, e) ↦ in_i64-InI64 minus n z (rw (e, parse_magnitude) at h)
]

-- What the parser returns is a number of 64 bits with a sign.
pub parse_i64-InI64 : (s : List ℕ) (z : ℤ) → parse_i64 s ≡ some z → InI64 z
unfolding parse_i64
parse_i64-InI64 [] z h = cc h
parse_i64-InI64 (c ∷ s) z h = elim (Bool-cases (nat_eq c b'-')) [
  | inl minus ↦ parse_magnitude-InI64 true s z (rw minus at h)
  | inr other ↦ elim (Bool-cases (nat_eq c b'+')) [
    | inl plus ↦ parse_magnitude-InI64 false s z (rw (other, plus) at h)
    | inr digit ↦ parse_magnitude-InI64 false (c ∷ s) z (rw (other, digit) at h)
  ]
]
