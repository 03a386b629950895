-- ===== src/Requests/Parts.antt =====
-- kmipcore/src/kmip_requests.cpp: the elements that requests are made of.
use libkmip.Base.{
  ℕ, ◌+◌, ◌*◌, ◌%◌, ◌^◌, Bool, List, [], ◌∷◌, Option, none, some, if◌then◌else◌, codes, length,
  same_text,
}
use libkmip.Ttlv.{Element}
use libkmip.Ttlv.Access.{
  create_structure, create_integer, create_enumeration, create_text_string, create_byte_string,
}
use libkmip.Protocol.Tags.{
  tag_attribute, tag_attribute_name, tag_attribute_value, tag_unique_identifier,
}
use libkmip.Protocol.Children.{collect, optional}
use libkmip.Protocol.Version.{ProtocolVersion, is_at_least}
use libkmip.Codes.{
  crypto_aes, mask_derive_key, mask_export, format_raw, format_opaque,
  name_uninterpreted_text_string, tag_activation_date, tag_deactivation_date,
  tag_process_start_date, tag_protect_stop_date, tag_attributes, tag_attribute_reference,
  tag_cryptographic_algorithm, tag_cryptographic_length, tag_cryptographic_usage_mask,
  tag_object_group, tag_operation_policy_name, tag_state, tag_name, tag_name_type, tag_name_value,
  tag_template_attribute, tag_key_value, tag_key_material, tag_key_block, tag_key_format_type,
  tag_symmetric_key, tag_secret_data, tag_secret_data_type,
}
use libkmip.Attributes.Names.{
  attr_name, attr_group, attr_state, attr_unique_identifier, attr_unique_identifier_alt,
  attr_activation_date, attr_deactivation_date, attr_process_start_date, attr_protect_stop_date,
  attr_crypto_alg, attr_crypto_len, attr_crypto_usage_mask, attr_operation_policy_name,
}

unfoldable pub use_attributes_container : ProtocolVersion → Bool
use_attributes_container version = is_at_least version 2 0

-- The children in their order; what is absent is not added.
abbrev pub structure_of : ℕ → List (Option Element) → Element
structure_of tag children = create_structure tag (collect children)

-- `if (!text.empty()) … createTextString(tag, text)`
abbrev pub unless_empty : (List ℕ → Element) → List ℕ → Option Element
unless_empty make [] = none
unless_empty make (c ∷ text) = some (make (c ∷ text))

unfoldable pub standard_attribute_name_to_tag : List ℕ → Option ℕ
standard_attribute_name_to_tag name =
    if same_text name attr_name
    then some tag_name
    else if same_text name attr_group
    then some tag_object_group
    else if same_text name attr_state
    then some tag_state
    else if same_text name attr_unique_identifier
    then some tag_unique_identifier
    else if same_text name attr_unique_identifier_alt
    then some tag_unique_identifier
    else if same_text name attr_activation_date
    then some tag_activation_date
    else if same_text name attr_deactivation_date
    then some tag_deactivation_date
    else if same_text name attr_process_start_date
    then some tag_process_start_date
    else if same_text name attr_protect_stop_date
    then some tag_protect_stop_date
    else if same_text name attr_crypto_alg
    then some tag_cryptographic_algorithm
    else if same_text name attr_crypto_len
    then some tag_cryptographic_length
    else if same_text name attr_crypto_usage_mask
    then some tag_cryptographic_usage_mask
    else if same_text name attr_operation_policy_name
    then some tag_operation_policy_name
    else none

-- A reference by the tag, or by the name where that has no tag.
abbrev pub reference_to : List ℕ → Option ℕ → Element
reference_to name (some tag) = create_enumeration tag_attribute_reference tag
reference_to name none = create_text_string tag_attribute_name name

unfoldable pub make_v2_attribute_reference : List ℕ → Element
make_v2_attribute_reference name =
    structure_of tag_attribute_reference
      (some (reference_to name (standard_attribute_name_to_tag name)) ∷ [])

abbrev pub make_attribute : List ℕ → Element → Element
make_attribute name value =
    structure_of tag_attribute (some (create_text_string tag_attribute_name name) ∷ some value ∷ [])

abbrev pub make_text_attribute : List ℕ → List ℕ → Element
make_text_attribute name value = make_attribute name (create_text_string tag_attribute_value value)

abbrev pub make_enum_attribute : List ℕ → ℕ → Element
make_enum_attribute name value = make_attribute name (create_enumeration tag_attribute_value value)

abbrev pub make_integer_attribute : List ℕ → ℕ → Element
make_integer_attribute name value = make_attribute name (create_integer tag_attribute_value value)

abbrev pub name_children : List ℕ → List (Option Element)
name_children value =
    some (create_text_string tag_name_value value)
    ∷ some (create_enumeration tag_name_type name_uninterpreted_text_string)
    ∷ []

abbrev pub make_name_attribute : List ℕ → Element
make_name_attribute value =
    make_attribute (codes "Name") (structure_of tag_attribute_value (name_children value))

abbrev pub make_template_attribute : List (Option Element) → Element
make_template_attribute = structure_of tag_template_attribute

abbrev pub make_key_value : List ℕ → Element
make_key_value bytes =
    structure_of tag_key_value (some (create_byte_string tag_key_material bytes) ∷ [])

unfoldable pub make_key_block : ℕ → List ℕ → Option ℕ → Option ℕ → Element
make_key_block format bytes algorithm cryptographic_length = structure_of tag_key_block (
    some (create_enumeration tag_key_format_type format)
    ∷ some (make_key_value bytes)
    ∷ optional (create_enumeration tag_cryptographic_algorithm) algorithm
    ∷ optional (create_integer tag_cryptographic_length) cryptographic_length
    ∷ [])

-- The number of bits of a key, as an int32_t.
abbrev pub bits_of : List ℕ → ℕ
bits_of bytes = length bytes * 8 % 2 ^ 32

unfoldable pub make_symmetric_key : List ℕ → Element
make_symmetric_key bytes =
    structure_of tag_symmetric_key
      (some (make_key_block format_raw bytes (some crypto_aes) (some (bits_of bytes))) ∷ [])

unfoldable pub make_secret_data : List ℕ → ℕ → Element
make_secret_data secret secret_type = structure_of tag_secret_data (
    some (create_enumeration tag_secret_data_type secret_type)
    ∷ some (make_key_block format_opaque secret none none)
    ∷ [])

abbrev pub make_v2_name_struct : List ℕ → Element
make_v2_name_struct value = structure_of tag_name (name_children value)

-- The attributes of a symmetric key, for Create and for Register, in the 2.0 form.
abbrev pub v2_symmetric_attrs : List ℕ → List ℕ → ℕ → ℕ → List (Option Element)
v2_symmetric_attrs name group key_bits mask =
    some (create_enumeration tag_cryptographic_algorithm crypto_aes)
    ∷ some (create_integer tag_cryptographic_length key_bits)
    ∷ some (create_integer tag_cryptographic_usage_mask mask)
    ∷ some (make_v2_name_struct name)
    ∷ unless_empty (create_text_string tag_object_group) group
    ∷ []

-- The two masks are different bits, so `|` is their sum.
abbrev pub secret_mask : ℕ
secret_mask = mask_derive_key + mask_export

abbrev pub v2_secret_attrs : List ℕ → List ℕ → List (Option Element)
v2_secret_attrs name group =
    some (create_integer tag_cryptographic_usage_mask secret_mask)
    ∷ some (make_v2_name_struct name)
    ∷ unless_empty (create_text_string tag_object_group) group
    ∷ []

-- The same attributes in the 1.x form.
abbrev pub v1_symmetric_attrs : List ℕ → List ℕ → ℕ → ℕ → List (Option Element)
v1_symmetric_attrs name group key_bits mask =
    some (make_enum_attribute (codes "Cryptographic Algorithm") crypto_aes)
    ∷ some (make_integer_attribute (codes "Cryptographic Length") key_bits)
    ∷ some (make_integer_attribute (codes "Cryptographic Usage Mask") mask)
    ∷ some (make_name_attribute name)
    ∷ unless_empty (make_text_attribute (codes "Object Group")) group
    ∷ []

abbrev pub v1_secret_attrs : List ℕ → List ℕ → List (Option Element)
v1_secret_attrs name group =
    some (make_integer_attribute (codes "Cryptographic Usage Mask") secret_mask)
    ∷ some (make_name_attribute name)
    ∷ unless_empty (make_text_attribute (codes "Object Group")) group
    ∷ []

-- The container of the attributes of a new object: the form depends on the version.
abbrev pub container_for : ProtocolVersion → List (Option Element) → List (Option Element) → Element
container_for version v2 v1 =
    if use_attributes_container version
    then structure_of tag_attributes v2
    else make_template_attribute v1
