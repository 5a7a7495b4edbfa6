-- ===== src/Text/Utf8.antt =====
-- `String::into_bytes` and `str::from_utf8` of the standard library.
use lldap.Common.{
  ℕ, zero, suc, ◌≡◌, refl, ◌+◌, ◌-◌, ◌*◌, ◌/◌, ◌%◌, Bool, ◌&&◌, Option, none, some, [], ◌∷◌, ◌++◌,
  ltb, leb, nat_eq, if◌then◌else◌,
}
use lldap.Text.{Str, Bytes}

unfoldable pub encode_char : ℕ → Bytes
encode_char c =
    if ltb c 0x80
    then c ∷ []
    else if ltb c 0x800
    then (0xc0 + c / 64) ∷ (0x80 + c % 64) ∷ []
    else if ltb c 0x10000
    then (0xe0 + c / 4096) ∷ (0x80 + c / 64 % 64) ∷ (0x80 + c % 64) ∷ []
    else (0xf0 + c / 262144) ∷ (0x80 + c / 4096 % 64) ∷ (0x80 + c / 64 % 64) ∷ (0x80 + c % 64) ∷ []

unfoldable pub into_bytes : Str → Bytes
unfolding encode_char
into_bytes [] = []
into_bytes (c ∷ s) = encode_char c ++ into_bytes s

abbrev pub between : ℕ → ℕ → ℕ → Bool
between lo hi b = leb lo b && leb b hi

abbrev pub push_char : ℕ → Option Str → Option Str
push_char c none = none
push_char c (some s) = some (c ∷ s)

-- What the first byte of a scalar value says: how many bytes follow, the bits that it gives, and the
-- range of the second byte, which excludes overlong forms and surrogates.
pub data Lead : Type 0 where
  ascii : Lead
  follow : ℕ → ℕ → ℕ → ℕ → Lead
  bad : Lead

unfoldable pub lead : ℕ → Lead
lead b =
    if ltb b 0x80
    then Lead.ascii
    else if between 0xc2 0xdf b
    then Lead.follow 0 (b - 0xc0) 0x80 0xbf
    else if nat_eq b 0xe0
    then Lead.follow 1 0 0xa0 0xbf
    else if nat_eq b 0xed
    then Lead.follow 1 0xd 0x80 0x9f
    else if between 0xe1 0xef b
    then Lead.follow 1 (b - 0xe0) 0x80 0xbf
    else if nat_eq b 0xf0
    then Lead.follow 2 0 0x90 0xbf
    else if between 0xf1 0xf3 b
    then Lead.follow 2 (b - 0xf0) 0x80 0xbf
    else if nat_eq b 0xf4
    then Lead.follow 2 4 0x80 0x8f
    else Lead.bad

-- `str::from_utf8`: `decode_start` stands between scalar values, `decode_rest` inside one, with the
-- bytes still to come after the next, the bits so far and the range of the next byte.
unfoldable mutual
  unfolding lead

  pub decode_start : Bytes → Option Str
  decode_start [] = some []
  decode_start (b ∷ bs) = elim (lead b) [
    | Lead.ascii ↦ push_char b (decode_start bs)
    | Lead.follow more bits lo hi ↦ decode_rest bs more bits lo hi
    | Lead.bad ↦ none
  ]

  pub decode_rest : Bytes → ℕ → ℕ → ℕ → ℕ → Option Str
  decode_rest [] more bits lo hi = none
  decode_rest (b ∷ bs) more bits lo hi =
      let value = bits * 64 + (b - 0x80) in
      let step : Option Str = elim more [
        | zero ↦ push_char value (decode_start bs)
        | suc n ↦ decode_rest bs n value 0x80 0xbf
      ] in
      if between lo hi b then step else none

unfoldable pub from_utf8 : Bytes → Option Str
unfolding decode_start
from_utf8 bytes = decode_start bytes

-- Texts of one, two, three and four bytes to the character, and an overlong form.
from_utf8_tests :
    (from_utf8 (into_bytes (0x41 ∷ 0xe9 ∷ 0x20ac ∷ 0x1f600 ∷ []))
      ≡ some (0x41 ∷ 0xe9 ∷ 0x20ac ∷ 0x1f600 ∷ []))
    × (from_utf8 (0xc0 ∷ 0x80 ∷ []) ≡ none)
    × (from_utf8 (0xed ∷ 0xa0 ∷ 0x80 ∷ []) ≡ none)
unfolding from_utf8 into_bytes
from_utf8_tests = (refl, refl, refl)
