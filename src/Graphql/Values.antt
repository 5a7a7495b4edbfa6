-- ===== src/Graphql/Values.antt =====
-- server/src/infra/graphql/query.rs: the values of an attribute as texts, and what they are for values
-- that came in as texts (server/src/domain/deserialize.rs).
use lldap.Common.{
  ◌≡◌, refl, Bool, true, false, none, some, List, [], ◌∷◌, map, inl, inr, Bool-cases, Option-cases,
}
use lldap.Common.Int.{to_decimal, parse_i64}
use lldap.Common.Int.Decimal.{parse-to_decimal, parse_i64-InI64}
use lldap.Common.Result.{Result, ok, panic, traverse, >>=-eq-ok, ok_or-eq-ok}
use lldap.Text.{Str, Bytes}
use lldap.Domain.Types.{
  External, AttributeType, Element, Decoded, Serialized, JpegPhoto, NaiveDateTime, photo_of_bytes,
  photo_of_str,
}
use lldap.Domain.Deserialize.{parse_element, deserialize_attribute_value}
use lldap.Graphql.{FieldError}

module _ ⦃lib : External⦄ where
  -- One value, as GraphQL shows it.
  unfoldable pub element_text : (t : AttributeType) → Element t → Str
  unfolding to_decimal
  element_text AttributeType.string s = s
  element_text AttributeType.integer i = to_decimal i
  element_text AttributeType.jpeg_photo p = lib.encode_base64 p
  element_text AttributeType.date_time d = lib.to_rfc3339 d

  abbrev decoded_texts : (t : AttributeType) (is_list : Bool) → Decoded t is_list → List Str
  decoded_texts t false x = element_text t x ∷ []
  decoded_texts t true xs = map (element_text t) xs

  -- `attribute.value.unwrap::<T>()` panics on bytes that do not decode.
  unfoldable pub serialize_attribute :
      {E : Type 0} → AttributeType → Bool → Serialized → Result E (List Str)
  unfolding element_text
  serialize_attribute t is_list v = elim (lib.deserialize t is_list v) [
    | none ↦ panic
    | some x ↦ ok (decoded_texts t is_list x)
  ]

-- What the crates base64 and chrono promise of a value that was made a text.
pub record TextLaws (lib : External) : Type 0 where
  pub decode-encode_base64 : (b : Bytes) → lib.decode_base64 (lib.encode_base64 b) ≡ some b
  pub parse-to_rfc3339 : (d : NaiveDateTime) → lib.parse_rfc3339 (lib.to_rfc3339 d) ≡ some d

-- A text is shown as it came in.
abbrev pub SameText : AttributeType → List Str → List Str → Type 0
SameText AttributeType.string vs shown = shown ≡ vs
SameText _ vs shown = Unit

module _ ⦃lib : External⦄ where
  photo_of_bytes-fixed :
      (b : Bytes) (p : JpegPhoto) → photo_of_bytes b ≡ some p → photo_of_bytes p ≡ some p
  unfolding photo_of_bytes
  photo_of_bytes-fixed [] p h = let same : [] ≡ p = cc h in rw (← same) refl
  photo_of_bytes-fixed (c ∷ b) p h = elim (Bool-cases (lib.is_jpeg (c ∷ b))) [
    | inl image ↦ let same : c ∷ b ≡ p = cc (rw image at h) in rw (← same, image) refl
    | inr other ↦ cc (rw other at h)
  ]

  photo_of_str-encoded :
      (s : Str) (p : JpegPhoto)
      → TextLaws lib
      → photo_of_str s ≡ some p
      → photo_of_str (lib.encode_base64 p) ≡ some p
  unfolding photo_of_str
  photo_of_str-encoded s p laws h = elim (Option-cases (lib.decode_base64 s)) [
    | inl e ↦ cc (rw (e, photo_of_str) at h)
    | inr (b, e) ↦
        (let image : photo_of_bytes b ≡ some p = (rw (e, photo_of_str) at h) in
          rw (laws.decode-encode_base64 p, photo_of_str) (photo_of_bytes-fixed b p image))
  ]

  -- The text of a value that was parsed is parsed as that value.
  parse_element-text :
      (t : AttributeType) (v : Str) (x : Element t)
      → TextLaws lib
      → parse_element t v ≡ ok x
      → parse_element t (element_text t x) ≡ ok x
  unfolding parse_element element_text
  parse_element-text AttributeType.string v x laws h = refl
  parse_element-text AttributeType.integer v x laws h =
      rw (parse-to_decimal x (parse_i64-InI64 v x (ok_or-eq-ok _ (parse_i64 v) h))) refl
  parse_element-text AttributeType.jpeg_photo v x laws h =
      rw (photo_of_str-encoded v x laws (ok_or-eq-ok _ (photo_of_str v) h)) refl
  parse_element-text AttributeType.date_time v x laws h = rw (laws.parse-to_rfc3339 x) refl

  SameText-nil : (t : AttributeType) → SameText t [] []
  SameText-nil AttributeType.string = refl
  SameText-nil _ = tt

  SameText-cons :
      (t : AttributeType) (v : Str) (vs : List Str) (x : Element t) (xs : List (Element t))
      → parse_element t v ≡ ok x
      → SameText t vs (map (element_text t) xs)
      → SameText t (v ∷ vs) (element_text t x ∷ map (element_text t) xs)
  unfolding parse_element element_text
  SameText-cons AttributeType.string v vs x xs e h = let same : v ≡ x = cc e in cc (same, h)
  SameText-cons AttributeType.integer v vs x xs e h = tt
  SameText-cons AttributeType.jpeg_photo v vs x xs e h = tt
  SameText-cons AttributeType.date_time v vs x xs e h = tt

  traverse-text :
      (t : AttributeType) (vs : List Str) (xs : List (Element t))
      → TextLaws lib
      → traverse (parse_element t) vs ≡ ok xs
      → (traverse (parse_element t) (map (element_text t) xs) ≡ ok xs)
        × SameText t vs (map (element_text t) xs)
  unfolding traverse parse_element element_text
  traverse-text t [] xs laws h = let same : [] ≡ xs = cc h in rw (← same) (refl, SameText-nil t)
  traverse-text t (v ∷ vs) xs laws h =
      let (y, e, h1) = >>=-eq-ok (parse_element t v) _ h in
      let (ys, k, h2) = >>=-eq-ok (traverse (parse_element t) vs) _ h1 in
      let same : y ∷ ys ≡ xs = cc h2 in
      let (front, texts) = traverse-text t vs ys laws k in
      let first : parse_element t (element_text t y) ≡ ok y = parse_element-text t v y laws e in
      rw (← same) (rw (first, front) refl, SameText-cons t v vs y ys e texts)

  -- When the stored form of a value decodes to that value, and base64 and the form of dates can be read
  -- back: the values of an attribute that were accepted as texts are shown without a panic, as texts
  -- that are accepted again and give the same stored form; and a value of type string is shown as it
  -- came in.
  pub serialize-deserialize_attribute :
      (t : AttributeType) (is_list : Bool) (vs : List Str) (stored : Serialized)
      → ((x : Decoded t is_list) → lib.deserialize t is_list (lib.serialize t is_list x) ≡ some x)
      → TextLaws lib
      → deserialize_attribute_value vs t is_list ≡ ok stored
      → (shown : List Str) × (serialize_attribute {E = FieldError} t is_list stored ≡ ok shown)
        × (deserialize_attribute_value shown t is_list ≡ ok stored)
        × SameText t vs shown
  unfolding serialize_attribute deserialize_attribute_value traverse
  serialize-deserialize_attribute t false [] stored law laws h = cc h
  serialize-deserialize_attribute t false (v ∷ w ∷ vs) stored law laws h = cc h
  serialize-deserialize_attribute t false (v ∷ []) stored law laws h =
      let (x, e, h1) = >>=-eq-ok (parse_element t v) _ h in
      let same : lib.serialize t false x ≡ stored = cc h1 in
      let (again, texts) = traverse-text t (v ∷ []) (x ∷ []) laws (rw e refl) in
      (
        element_text t x ∷ [],
        rw (← same, law x, serialize_attribute) refl,
        rw (parse_element-text t v x laws e, ← same) refl,
        texts,
      )
  serialize-deserialize_attribute t true vs stored law laws h =
      let (xs, e, h1) = >>=-eq-ok (traverse (parse_element t) vs) _ h in
      let same : lib.serialize t true xs ≡ stored = cc h1 in
      let (again, texts) = traverse-text t vs xs laws e in
      (
        map (element_text t) xs,
        rw (← same, law xs, serialize_attribute) refl,
        rw (again, ← same) refl,
        texts,
      )
