-- ===== src/Requests/Keys.antt =====
-- kmipcore/src/kmip_requests.cpp: what Register sends of a key, kmipcore/include/kmipcore/key.hpp.
use libkmip.Base.{
  ℕ, ◌-◌, ◌/◌, ◌^◌, Bool, true, false, ◌&&◌, ◌||◌, List, [], ◌∷◌, ◌++◌, Option, none, some, Result,
  ok, err, ◌==◌, leb, lt_i32, le_i32, if◌then◌else◌, codes, length, same_text, TextMap,
}
use libkmip.Errors.{Error, key_without_algorithm, certificate_not_supported, unsupported_key_type}
use libkmip.Ttlv.{Element}
use libkmip.Ttlv.Access.{create_integer, create_enumeration, create_text_string}
use libkmip.Protocol.Version.{ProtocolVersion, is_at_least}
use libkmip.Codes.{
  crypto_unset, crypto_shake_256, crypto_one_time_pad, crypto_ec, crypto_twofish, mask_unset,
  object_symmetric_key, object_private_key, object_public_key, object_certificate, format_raw,
  format_pkcs8, format_x509, tag_cryptographic_algorithm, tag_cryptographic_length,
  tag_cryptographic_usage_mask, tag_object_group, tag_symmetric_key, tag_private_key,
  tag_public_key,
}
use libkmip.Attributes.{AttributeValue, Attributes, algorithm, usage_mask_of, value_to_string}
use libkmip.Requests.Parts.{
  structure_of, unless_empty, make_key_block, make_name_attribute, make_text_attribute,
  make_enum_attribute, make_integer_attribute, make_v2_name_struct, bits_of,
}

pub data KeyType : Type 0 where
  unset symmetric_key public_key private_key certificate : KeyType

pub record Key : Type 0 where
  pub key_type : KeyType
  pub value : List ℕ
  pub attributes : Attributes
  pub key_format : Option ℕ

-- The highest code of an algorithm that a version of the protocol defines.
unfoldable pub last_crypto_algorithm : ProtocolVersion → ℕ
last_crypto_algorithm version =
    if is_at_least version 2 0
    then 2 ^ 31 - 1
    else if is_at_least version 1 4
    then crypto_shake_256
    else if is_at_least version 1 3
    then crypto_one_time_pad
    else if is_at_least version 1 2
    then crypto_ec
    else crypto_twofish

abbrev pub is_symmetric : KeyType → Bool
is_symmetric symmetric_key = true
is_symmetric other = false

-- The length in bits that is set, or that of the value where that is the key itself and fits.
abbrev pub length_of : Option ℕ → Bool → List ℕ → Option ℕ
length_of (some n) symmetric value = some n
length_of none symmetric value =
    if symmetric && leb (length value) ((2 ^ 31 - 1) / 8) then some (bits_of value) else none

-- `if (!length || *length <= 0) return nullopt;`
abbrev pub with_length : ℕ → Option ℕ → Option (ℕ × ℕ)
with_length alg none = none
with_length alg (some n) = if le_i32 n 0 then none else some (alg, n)

unfoldable pub algorithm_and_length : Key → ProtocolVersion → Option (ℕ × ℕ)
algorithm_and_length key version =
    let alg = algorithm key.attributes in
    if alg == crypto_unset || lt_i32 (last_crypto_algorithm version) alg
    then none
    else with_length alg
        (length_of key.attributes.crypto_length (is_symmetric key.key_type) key.value)

abbrev pub first_of : Option (ℕ × ℕ) → Option ℕ
first_of (some pair) = some pair.0
first_of none = none

abbrev pub second_of : Option (ℕ × ℕ) → Option ℕ
second_of (some pair) = some pair.1
second_of none = none

abbrev pub format_or : Option ℕ → ℕ → ℕ
format_or (some format) default = format
format_or none default = default

-- A key of the type: its block, with the algorithm and the length if both are sent.
abbrev pub key_object : ℕ → ℕ → Key → Option (ℕ × ℕ) → Element
key_object tag default key pair = structure_of tag (
    some
      (make_key_block (format_or key.key_format default) key.value (first_of pair) (second_of pair))
    ∷ [])

-- A symmetric key does not carry its algorithm, so that must be sent.
abbrev pub symmetric_object : Key → Option (ℕ × ℕ) → Result Error Element
symmetric_object key (some pair) = ok (key_object tag_symmetric_key format_raw key (some pair))
symmetric_object key none = err key_without_algorithm

abbrev pub object_for : KeyType → Key → Option (ℕ × ℕ) → Result Error Element
object_for symmetric_key key pair = symmetric_object key pair
object_for private_key key pair = ok (key_object tag_private_key format_pkcs8 key pair)
object_for public_key key pair = ok (key_object tag_public_key format_x509 key pair)
object_for certificate key pair = err certificate_not_supported
object_for unset key pair = err unsupported_key_type

unfoldable pub make_key_object_from_key : Key → ProtocolVersion → Result Error Element
make_key_object_from_key key version =
    object_for key.key_type key (algorithm_and_length key version)

abbrev pub object_type_from_key_type : KeyType → Result Error ℕ
object_type_from_key_type symmetric_key = ok object_symmetric_key
object_type_from_key_type private_key = ok object_private_key
object_type_from_key_type public_key = ok object_public_key
object_type_from_key_type certificate = ok object_certificate
object_type_from_key_type unset = err unsupported_key_type

-- What is added for the pair, where there is one.
abbrev pub pair_elements : (ℕ → Element) → (ℕ → Element) → Option (ℕ × ℕ) → List (Option Element)
pair_elements alg len none = []
pair_elements alg len (some pair) = some (alg pair.0) ∷ some (len pair.1) ∷ []

-- What is added for the usage mask, where that is set.
abbrev pub mask_element : (ℕ → Element) → ℕ → Option Element
mask_element make mask = if mask == mask_unset then none else some (make mask)

unfoldable pub v2_key_attrs : List ℕ → List ℕ → Key → ProtocolVersion → List (Option Element)
v2_key_attrs name group key version =
    some (make_v2_name_struct name)
      ∷ unless_empty (create_text_string tag_object_group) group
      ∷ pair_elements (create_enumeration tag_cryptographic_algorithm)
          (create_integer tag_cryptographic_length) (algorithm_and_length key version)
    ++ (mask_element (create_integer tag_cryptographic_usage_mask) (usage_mask_of key.attributes)
        ∷ [])

-- The generic attributes but the name and the group.
abbrev pub generic_attrs : TextMap AttributeValue → List (Option Element)
generic_attrs [] = []
generic_attrs ((name, value) ∷ rest) =
    let later = generic_attrs rest in
    if same_text name (codes "Name") || same_text name (codes "Object Group")
    then later
    else some (make_text_attribute name (value_to_string value)) ∷ later

unfoldable pub v1_key_attrs : List ℕ → List ℕ → Key → ProtocolVersion → List (Option Element)
v1_key_attrs name group key version =
    some (make_name_attribute name)
      ∷ unless_empty (make_text_attribute (codes "Object Group")) group
      ∷ pair_elements (make_enum_attribute (codes "Cryptographic Algorithm"))
          (make_integer_attribute (codes "Cryptographic Length")) (algorithm_and_length key version)
    ++ (mask_element (make_integer_attribute (codes "Cryptographic Usage Mask"))
          (usage_mask_of key.attributes)
        ∷ generic_attrs key.attributes.generic)
