-- ===== src/Domain/Types.antt =====
-- server/src/domain/types.rs, and the case-insensitive names of auth/src/lib.rs.
--
-- `CaseInsensitiveString` is a text that its constructors lower; `UserId` and `AttributeName` wrap
-- it. The names of `make_case_insensitive_comparable_string!` keep their text and compare by case
-- folding. A `NaiveDateTime` is a number, a point in time that the program only stores and prints.
pub mod Compare
use Prim.Native.Nat.{zero}
use lldap.Common.{ℕ, String, Bool, true, false, Option, none, some, List, [], ◌∷◌, if◌then◌else◌}
use lldap.Common.Int.{ℤ}
use lldap.Text.{Str, Bytes, ◌==◌, codes, to_ascii_lowercase}

abbrev pub CaseInsensitiveString : Type 0
CaseInsensitiveString = Str

unfoldable pub new_case_insensitive : Str → CaseInsensitiveString
new_case_insensitive s = to_ascii_lowercase s

abbrev pub UserId : Type 0
UserId = CaseInsensitiveString

abbrev pub new_user_id : Str → UserId
new_user_id s = new_case_insensitive s

abbrev pub AttributeName : Type 0
AttributeName = CaseInsensitiveString

abbrev pub new_attribute_name : Str → AttributeName
new_attribute_name s = new_case_insensitive s

abbrev pub GroupName : Type 0
GroupName = Str

abbrev pub LdapObjectClass : Type 0
LdapObjectClass = Str

abbrev pub Email : Type 0
Email = Str

abbrev pub GroupId : Type 0
GroupId = ℤ

abbrev pub Uuid : Type 0
Uuid = Str

abbrev pub NaiveDateTime : Type 0
NaiveDateTime = ℕ

abbrev pub JpegPhoto : Type 0
JpegPhoto = Bytes

-- The bytes of `bincode`.
abbrev pub Serialized : Type 0
Serialized = Bytes

pub data AttributeType : Type 0 where
  string integer jpeg_photo date_time : AttributeType

-- The Rust type of one value of an attribute, and of the attribute as a whole.
abbrev pub Element : AttributeType → Type 0
Element AttributeType.string = Str
Element AttributeType.integer = ℤ
Element AttributeType.jpeg_photo = JpegPhoto
Element AttributeType.date_time = NaiveDateTime

abbrev pub Decoded : AttributeType → Bool → Type 0
Decoded t false = Element t
Decoded t true = List (Element t)

pub record AttributeValue : Type 0 where
  pub name : AttributeName
  pub value : Serialized

pub record User : Type 0 where
  pub user_id : UserId
  pub email : Email
  pub display_name : Option Str
  pub creation_date : NaiveDateTime
  pub uuid : Uuid
  pub attributes : List AttributeValue

pub record Group : Type 0 where
  pub id : GroupId
  pub display_name : GroupName
  pub creation_date : NaiveDateTime
  pub uuid : Uuid
  pub users : List UserId
  pub attributes : List AttributeValue

pub record GroupDetails : Type 0 where
  pub group_id : GroupId
  pub display_name : GroupName
  pub creation_date : NaiveDateTime
  pub uuid : Uuid
  pub attributes : List AttributeValue

pub record UserAndGroups : Type 0 where
  pub user : User
  pub groups : Option (List GroupDetails)

-- What the program calls outside its repository and beyond what can be written down here: the
-- tables of Unicode, and the crates uuid, chrono, image, base64 and bincode.
pub record External : Type 0 where
  -- `char::to_lowercase` and `str::to_lowercase`
  pub char_to_lowercase : ℕ → Str
  pub str_to_lowercase : Str → Str
  -- `uuid::Uuid::parse_str(s)?.to_string()`
  pub parse_uuid : Str → Option Str
  -- `uuid::Uuid::new_v3(&NAMESPACE_X500, bytes).to_string()`
  pub new_uuid_v3 : Bytes → Str
  -- `DateTime::to_rfc3339` and `DateTime::parse_from_rfc3339`
  pub to_rfc3339 : NaiveDateTime → Str
  pub parse_rfc3339 : Str → Option NaiveDateTime
  -- whether `image` decodes the bytes as a JPEG
  pub is_jpeg : Bytes → Bool
  pub decode_base64 : Str → Option Bytes
  pub encode_base64 : Bytes → Str
  -- `bincode::serialize` and `bincode::deserialize` at the type of an attribute
  pub serialize : (t : AttributeType) (is_list : Bool) → Decoded t is_list → Serialized
  pub deserialize : (t : AttributeType) (is_list : Bool) → Serialized → Option (Decoded t is_list)

module _ ⦃lib : External⦄ where
  -- `TryFrom<&[u8]> for JpegPhoto`: no bytes are the null photo.
  unfoldable pub photo_of_bytes : Bytes → Option JpegPhoto
  photo_of_bytes [] = some []
  photo_of_bytes (b ∷ bs) = if lib.is_jpeg (b ∷ bs) then some (b ∷ bs) else none

  -- `TryFrom<&str> for JpegPhoto`: base64.
  unfoldable pub photo_of_str : Str → Option JpegPhoto
  unfolding photo_of_bytes
  photo_of_str s = elim (lib.decode_base64 s) [ none ↦ none | some bs ↦ photo_of_bytes bs ]

  -- `TryFrom<&str> for Uuid`
  abbrev pub uuid_of_str : Str → Option Uuid
  uuid_of_str s = lib.parse_uuid s

  -- `Serialized::from(&str)` and `Serialized::from(&JpegPhoto)`
  abbrev pub serialized_str : Str → Serialized
  serialized_str s = lib.serialize AttributeType.string false s

  abbrev pub serialized_photo : JpegPhoto → Serialized
  serialized_photo p = lib.serialize AttributeType.jpeg_photo false p
