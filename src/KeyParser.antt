-- ===== src/KeyParser.antt =====
-- kmipcore/src/key_parser.cpp: the key or the secret in the response to Get.
pub mod Registered
pub mod Formats
pub mod Runs
use libkmip.Base.{
  ℕ, Bool, true, false, not, ◌&&◌, ◌||◌, List, [], ◌∷◌, Option, none, some, Result, ok, err, ◌>>=◌,
  ◌>>◌, throw_if, ◌==◌, if◌then◌else◌,
}
use libkmip.Errors.{
  Error, missing_response_payload, missing_object_type, missing_key_block, missing_key_value,
  missing_key_material, missing_key_format, missing_key_object, invalid_object_format,
  key_material_not_bytes, certificate_not_parsed, structured_key_material, unsupported_object_type,
  missing_secret_value, missing_secret_material, secret_data_expected, secret_block_mismatch,
  secret_format_mismatch, unknown_secret_type,
}
use libkmip.Codes.{
  object_certificate, object_symmetric_key, object_private_key, object_public_key,
  object_secret_data, format_raw, format_opaque, secret_password, secret_seed, secret_extensions,
  tag_object_type, tag_key_block, tag_key_value, tag_key_material, tag_key_format_type,
  tag_symmetric_key, tag_private_key, tag_public_key, tag_secret_data_type,
  tag_cryptographic_algorithm, tag_cryptographic_length,
}
use libkmip.Ttlv.{Element, Items, element, byte_string}
use libkmip.Ttlv.Access.{get_child, get_children, as_structure, to_enum}
use libkmip.Protocol.Tags.{tag_attribute}
use libkmip.Protocol.Children.{child_required}
use libkmip.AttributesParser.{parse, checked, set_child, read_algorithm, read_length}
use libkmip.Requests.Keys.{KeyType, symmetric_key, private_key, public_key, Key, is_symmetric}
use libkmip.Responses.{GetResponse}

pub record Secret : Type 0 where
  pub secret_value : List ℕ
  pub secret_type : ℕ

unfoldable pub secure_key_material : Element → Result Error (List ℕ)
secure_key_material (element tag type (byte_string bytes)) = ok bytes
secure_key_material (element tag type value) = err key_material_not_bytes

-- A structure of key components is refused, with the format in the message.
abbrev pub refuse_structure : Option Items → Element → Result Error (Unit {0})
refuse_structure none key_format = ok tt
refuse_structure (some components) key_format =
    to_enum key_format >>= λ n. err (structured_key_material n)

abbrev pub require_raw : Option Element → Result Error (Unit {0})
require_raw none = err invalid_object_format
require_raw (some key_format) = do
  n ← to_enum key_format
  throw_if (not (n == format_raw)) invalid_object_format

-- Symmetric keys require the format Raw, where there is a key block.
abbrev pub require_raw_block : Option Element → Result Error (Unit {0})
require_raw_block none = ok tt
require_raw_block (some key_block) = require_raw (get_child tag_key_format_type key_block)

abbrev pub is_valid_secret_data_type : ℕ → Bool
is_valid_secret_data_type v = v == secret_password || (v == secret_seed || v == secret_extensions)

abbrev pub checked_secret_data_type : ℕ → Result Error ℕ
checked_secret_data_type v = checked (is_valid_secret_data_type v) unknown_secret_type v

abbrev pub require_secret_format : Option Element → Result Error (Unit {0})
require_secret_format none = err secret_format_mismatch
require_secret_format (some key_format) = do
  n ← to_enum key_format
  throw_if (not (n == format_opaque) && not (n == format_raw)) secret_format_mismatch

unfoldable pub parse_get_secret_response : GetResponse → Result Error Secret
parse_get_secret_response item = do
  throw_if (not (item.object_type == object_secret_data)) secret_data_expected
  secret_type ←
      child_required (get_child tag_secret_data_type item.object_element) secret_block_mismatch
  key_block ← child_required (get_child tag_key_block item.object_element) secret_block_mismatch
  require_secret_format (get_child tag_key_format_type key_block)
  key_value ← child_required (get_child tag_key_value key_block) missing_secret_value
  key_material ← child_required (get_child tag_key_material key_value) missing_secret_material
  bytes ← secure_key_material key_material
  code ← to_enum secret_type
  checked_code ← checked_secret_data_type code
  ok (record { secret_value = bytes; secret_type = checked_code })

abbrev pub format_code : Option Element → Result Error (Option ℕ)
format_code none = ok none
format_code (some key_format) = to_enum key_format >>= λ n. ok (some n)

abbrev pub block_format : Option Element → Result Error (Option ℕ)
block_format none = ok none
block_format (some key_block) = format_code (get_child tag_key_format_type key_block)

-- The format of the key, where there is a key block with one.
unfoldable pub key_format_type : GetResponse → Result Error (Option ℕ)
key_format_type item = block_format (get_child tag_key_block item.object_element)

module _ (date_to_string : ℕ → List ℕ) where
  unfoldable pub parse_key_from_key_block_holder : Element → KeyType → Result Error Key
  parse_key_from_key_block_holder object key_type = do
    key_block ← child_required (get_child tag_key_block object) missing_key_block
    key_value ← child_required (get_child tag_key_value key_block) missing_key_value
    key_material ← child_required (get_child tag_key_material key_value) missing_key_material
    key_format ← child_required (get_child tag_key_format_type key_block) missing_key_format
    refuse_structure (as_structure key_material) key_format
    bytes ← secure_key_material key_material
    parsed ← parse date_to_string (get_children tag_attribute key_value)
    with_algorithm ←
        set_child read_algorithm (get_child tag_cryptographic_algorithm key_block) parsed
    key_attrs ← set_child read_length (get_child tag_cryptographic_length key_block) with_algorithm
    format ← to_enum key_format
    ok (record {
      key_type = key_type;
      value = bytes;
      attributes = key_attrs;
      key_format = some format;
    })

  unfoldable pub parse_object : ℕ → KeyType → Element → Result Error Key
  parse_object wrapper_tag key_type payload = do
    object ← child_required (get_child wrapper_tag payload) missing_key_object
    if is_symmetric key_type then require_raw_block (get_child tag_key_block object) else ok tt
    parse_key_from_key_block_holder object key_type

  unfoldable pub parse_of_type : ℕ → Element → Result Error Key
  parse_of_type obj_type payload =
      if obj_type == object_symmetric_key
      then parse_object tag_symmetric_key symmetric_key payload
      else if obj_type == object_private_key
      then parse_object tag_private_key private_key payload
      else if obj_type == object_public_key
      then parse_object tag_public_key public_key payload
      else if obj_type == object_certificate
      then err certificate_not_parsed
      else err (unsupported_object_type obj_type)

  unfoldable pub parse_get_key_response : Option Element → Result Error Key
  parse_get_key_response none = err missing_response_payload
  parse_get_key_response (some payload) = do
    object_type ← child_required (get_child tag_object_type payload) missing_object_type
    obj_type ← to_enum object_type
    parse_of_type obj_type payload
