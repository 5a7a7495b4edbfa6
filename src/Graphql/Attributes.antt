-- ===== src/Graphql/Attributes.antt =====
-- server/src/infra/graphql/mutation.rs: the values of attributes and the images of a request.
use lldap.Common.{Bool, not, ◌&&◌, Option, none, some, List, ◌++◌, if◌then◌else◌}
use lldap.Common.Result.{ok, err, ok_or, map_err, ◌>>=◌}
use lldap.Text.{Str, codes}
use lldap.Domain.Types.{External, JpegPhoto, photo_of_bytes, new_attribute_name}
use lldap.Domain.Types as Domain
use lldap.Domain.Handler.{AttributeList, AttributeSchema, get_attribute_schema}
use lldap.Domain.Deserialize.{deserialize_attribute_value}
use lldap.Graphql.{FieldError, message, deserialize_error, FieldResult}

-- `AttributeValue` of the requests.
pub record AttributeValueInput : Type 0 where
  pub name : Str
  pub value : List Str

abbrev pub undefined_attribute : Str → FieldError
undefined_attribute name =
    message (codes "Attribute " ++ name ++ codes " is not defined in the schema")

abbrev pub not_editable : Str → FieldError
not_editable name =
    message
      (codes "Permission denied: Attribute " ++ name ++ codes " is not editable by regular users")

module _ ⦃lib : External⦄ where
  -- The end of `deserialize_attribute`, with the schema of the attribute.
  unfoldable pub deserialize_known :
      AttributeValueInput → Bool → AttributeSchema → FieldResult Domain.AttributeValue
  unfolding deserialize_attribute_value
  deserialize_known attribute is_admin schema =
      let deserialized = do
        value ←
            map_err (deserialize_error attribute.name)
              (deserialize_attribute_value attribute.value schema.attribute_type schema.is_list)
        ok (record { name = new_attribute_name attribute.name; value = value })
      in if not is_admin && not schema.is_editable
        then err (not_editable attribute.name)
        else deserialized

  unfoldable pub deserialize_attribute :
      AttributeList → Bool → AttributeValueInput → FieldResult Domain.AttributeValue
  unfolding deserialize_known
  deserialize_attribute schema is_admin attribute = do
    attribute_schema ←
        ok_or (undefined_attribute attribute.name)
          (get_attribute_schema schema (new_attribute_name attribute.name))
    deserialize_known attribute is_admin attribute_schema

  -- The base64 text of an image, if there is one.
  unfoldable pub decode_avatar : Option Str → FieldResult (Option JpegPhoto)
  unfolding photo_of_bytes
  decode_avatar none = ok none
  decode_avatar (some text) = do
    bytes ← ok_or (message (codes "Invalid base64 image")) (lib.decode_base64 text)
    photo ← ok_or (message (codes "Provided image is not a valid JPEG")) (photo_of_bytes bytes)
    ok (some photo)
