-- ===== src/Domain/Deserialize.antt =====
-- server/src/domain/deserialize.rs: the stored form of an attribute's values given as texts.
use lldap.Common.{Bool, true, false, List, [], ◌∷◌}
use lldap.Common.Int.{parse_i64}
use lldap.Common.Result.{Result, ok, err, ◌>>=◌, ok_or, traverse}
use lldap.Text.{Str}
use lldap.Domain.Types.{External, AttributeType, Element, Serialized, photo_of_str}

-- The `anyhow` errors of this function.
pub data DeserializeError : Type 0 where
  multiple_values : DeserializeError
  invalid_integer invalid_date : Str → DeserializeError
  invalid_photo : DeserializeError

module _ ⦃lib : External⦄ where
  -- `parse_int`, `parse_date`, `parse_photo`, and the text itself.
  unfoldable pub parse_element : (t : AttributeType) → Str → Result DeserializeError (Element t)
  unfolding parse_i64 photo_of_str
  parse_element AttributeType.string s = ok s
  parse_element AttributeType.integer s = ok_or (invalid_integer s) (parse_i64 s)
  parse_element AttributeType.jpeg_photo s = ok_or invalid_photo (photo_of_str s)
  parse_element AttributeType.date_time s = ok_or (invalid_date s) (lib.parse_rfc3339 s)

  unfoldable pub deserialize_attribute_value :
      List Str → AttributeType → Bool → Result DeserializeError Serialized
  unfolding parse_element traverse
  deserialize_attribute_value (v ∷ []) t false = do
    x ← parse_element t v
    ok (lib.serialize t false x)
  deserialize_attribute_value _ t false = err multiple_values
  deserialize_attribute_value vs t true = do
    xs ← traverse (parse_element t) vs
    ok (lib.serialize t true xs)
