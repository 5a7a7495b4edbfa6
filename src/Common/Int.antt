-- ===== src/Common/Int.antt =====
-- Signed integers over the native numbers, for `i64` and `i32`, with the decimal form of the
-- standard library's `parse` and `to_string`.
pub mod Decimal
use Prim.Native.Nat.{ℕ, zero, suc, ◌+◌, ◌-◌, ◌*◌, ◌/◌, ◌%◌, ◌^◌}
use mathlib.Core.Bool.{Bool, true, false, ◌&&◌}
use mathlib.Core.Option.{Option, none, some}
use mathlib.Core.List.{List, [], ◌∷◌, ◌++◌}
use lldap.Common.Tests.{leb, ltb, nat_eq, if◌then◌else◌}

-- `negsuc n` is -(n + 1).
pub data ℤ : Type 0 where
  pos : ℕ → ℤ
  negsuc : ℕ → ℤ

-- The value of a non-empty string of decimal digits.
unfoldable pub parse_digits : ℕ → List ℕ → Option ℕ
parse_digits n [] = some n
parse_digits n (c ∷ s) =
    let rest = parse_digits (n * 10 + (c - b'0')) s in
    if leb b'0' c && leb c b'9' then rest else none

abbrev pub in_i64 : Bool → ℕ → Option ℤ
in_i64 true n = if leb n (2 ^ 63) then some (if nat_eq n 0 then pos 0 else negsuc (n - 1)) else none
in_i64 false n = if ltb n (2 ^ 63) then some (pos n) else none

unfoldable pub parse_magnitude : Bool → List ℕ → Option ℤ
unfolding parse_digits
parse_magnitude minus [] = none
parse_magnitude minus (c ∷ s) = elim (parse_digits 0 (c ∷ s)) [
  | none ↦ none
  | some n ↦ in_i64 minus n
]

-- `str::parse::<i64>`: an optional sign, at least one digit, and a value that fits.
unfoldable pub parse_i64 : List ℕ → Option ℤ
unfolding parse_magnitude
parse_i64 [] = none
parse_i64 (c ∷ s) =
    if nat_eq c b'-'
    then parse_magnitude true s
    else if nat_eq c b'+'
    then parse_magnitude false s
    else parse_magnitude false (c ∷ s)

-- The decimal digits of a number, with fuel above the number of digits.
unfoldable pub digits : ℕ → ℕ → List ℕ
digits zero n = []
digits (suc fuel) n =
    let front = digits fuel (n / 10) in
    if ltb n 10 then (b'0' + n) ∷ [] else front ++ (b'0' + n % 10) ∷ []

-- `ToString for i64`; 20 digits hold every 64-bit magnitude.
unfoldable pub to_decimal : ℤ → List ℕ
unfolding digits
to_decimal (pos n) = digits 20 n
to_decimal (negsuc n) = b'-' ∷ digits 20 (n + 1)
