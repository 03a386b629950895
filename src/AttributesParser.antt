-- ===== src/AttributesParser.antt =====
-- kmipcore/src/attributes_parser.cpp: attributes read from elements of the 1.x and of the 2.0 form.
-- `date_to_string` prints a time by the C library, here a parameter.
pub mod Forms
pub mod Checked
pub mod Stored
pub mod Parsed
pub mod Runs
use libkmip.Base.{
  ℕ, zero, suc, ◌+◌, ◌-◌, ◌/◌, ◌%◌, ◌^◌, Bool, true, false, ◌&&◌, ◌||◌, List, [], ◌∷◌, ◌++◌, Option,
  none, some, Result, ok, err, ◌>>=◌, ◌==◌, ltb, le_i32, if◌then◌else◌, codes, same_text,
}
use libkmip.Errors.{Error, unknown_crypto_algorithm, unknown_usage_mask, unknown_state}
use libkmip.Codes.{
  crypto_unset, crypto_ed448, state_pre_active, state_destroyed_compromised,
  tag_cryptographic_algorithm, tag_cryptographic_length, tag_cryptographic_usage_mask, tag_state,
  tag_name, tag_name_value, tag_object_group, tag_activation_date, tag_deactivation_date,
  tag_process_start_date, tag_protect_stop_date,
}
use libkmip.Ttlv.{
  Element, tag_of, type_of, type_structure, type_integer, type_long_integer, type_big_integer,
  type_enumeration, type_boolean, type_text_string, type_byte_string, type_date_time, type_interval,
  type_date_time_extended,
}
use libkmip.Ttlv.Access.{
  get_child, to_int, to_long, to_bool, to_string, to_bytes, to_enum, to_interval,
}
use libkmip.Protocol.Tags.{
  tag_attribute, tag_attribute_name, tag_attribute_value, tag_unique_identifier,
}
use libkmip.Attributes.Names.{
  attr_name, attr_group, attr_unique_identifier, attr_activation_date, attr_deactivation_date,
  attr_process_start_date, attr_protect_stop_date,
}
use libkmip.Attributes.{
  Attributes, no_attributes, set_algorithm, set_crypto_length, set_usage_mask, set_state,
  set_string, set_int, set_long, set_bool,
}

abbrev pub is_valid_cryptographic_algorithm : ℕ → Bool
is_valid_cryptographic_algorithm v = le_i32 crypto_unset v && le_i32 v crypto_ed448

abbrev pub is_valid_state : ℕ → Bool
is_valid_state v = le_i32 state_pre_active v && le_i32 v state_destroyed_compromised

-- No bit above the lowest 24 is set.
abbrev pub is_valid_cryptographic_usage_mask : ℕ → Bool
is_valid_cryptographic_usage_mask v = v / 2 ^ 24 == 0

abbrev pub checked : Bool → Error → ℕ → Result Error ℕ
checked true e v = ok v
checked false e v = err e

abbrev pub checked_cryptographic_algorithm : ℕ → Result Error ℕ
checked_cryptographic_algorithm v =
    checked (is_valid_cryptographic_algorithm v) unknown_crypto_algorithm v

abbrev pub checked_state : ℕ → Result Error ℕ
checked_state v = checked (is_valid_state v) unknown_state v

abbrev pub checked_cryptographic_usage_mask : ℕ → Result Error ℕ
checked_cryptographic_usage_mask v =
    checked (is_valid_cryptographic_usage_mask v) unknown_usage_mask v

-- An uppercase hexadecimal digit.
abbrev pub upper_digit : ℕ → ℕ
upper_digit d = if ltb d 10 then b'0' + d else b'A' + d - 10

-- Two digits for each byte, with a space between the bytes.
abbrev pub hex_pairs : List ℕ → List ℕ
hex_pairs [] = []
hex_pairs (b ∷ bytes) = 32 ∷ upper_digit (b / 16) ∷ upper_digit (b % 16) ∷ hex_pairs bytes

abbrev pub bytes_to_hex : List ℕ → List ℕ
bytes_to_hex [] = []
bytes_to_hex (b ∷ bytes) = upper_digit (b / 16) ∷ upper_digit (b % 16) ∷ hex_pairs bytes

abbrev pub upper_digits : ℕ → ℕ → List ℕ
upper_digits zero n = []
upper_digits (suc width) n = upper_digit (n / 16 ^ width % 16) ∷ upper_digits width n

-- A tag has 24 bits.
abbrev pub generic_name_for_tag : ℕ → List ℕ
generic_name_for_tag tag = codes "Tag(0x" ++ upper_digits 6 tag ++ codes ")"

-- `result.set(…, value)`, for a value whose reading may throw.
abbrev pub set_read {ℓ} :
    {A : Type ℓ}
    → (A → Attributes → Attributes)
    → Result Error A
    → Attributes
    → Result Error Attributes
set_read change (ok v) result = ok (change v result)
set_read change (err e) result = err e

-- `if (child) result.set(…, read(child));`
abbrev pub set_child :
    (Element → Attributes → Result Error Attributes)
    → Option Element
    → Attributes
    → Result Error Attributes
set_child read (some child) result = read child result
set_child read none result = ok result

-- A structure: the value of a name, or a text that says that it is a structure.
abbrev pub set_name_value : List ℕ → Option Element → Attributes → Result Error Attributes
set_name_value name (some value) result = set_read (set_string name) (to_string value) result
set_name_value name none result = ok (set_string name (codes "<STRUCTURE>") result)

abbrev pub read_algorithm : Element → Attributes → Result Error Attributes
read_algorithm e = set_read set_algorithm (to_enum e >>= checked_cryptographic_algorithm)

abbrev pub read_length : Element → Attributes → Result Error Attributes
read_length e = set_read set_crypto_length (to_int e)

abbrev pub read_mask : Element → Attributes → Result Error Attributes
read_mask e = set_read set_usage_mask (to_int e >>= checked_cryptographic_usage_mask)

abbrev pub read_state : Element → Attributes → Result Error Attributes
read_state e = set_read set_state (to_enum e >>= checked_state)

-- The types that both forms store in the same way.
abbrev pub store_plain :
    List ℕ → Element → (Attributes → Result Error Attributes) → Attributes → Result Error Attributes
store_plain name e other result =
    let t = type_of e in
    if t == type_text_string
    then set_read (set_string name) (to_string e) result
    else if t == type_integer
    then set_read (set_int name) (to_int e) result
    else if t == type_enumeration
    then set_read (set_int name) (to_enum e) result
    else if t == type_long_integer || t == type_date_time_extended
    then set_read (set_long name) (to_long e) result
    else if t == type_boolean
    then set_read (set_bool name) (to_bool e) result
    else if t == type_byte_string || t == type_big_integer
    then set_read (λ (bytes : List ℕ). set_string name (bytes_to_hex bytes)) (to_bytes e) result
    else if t == type_interval
    then set_read (set_long name) (to_interval e) result
    else other result

module _ (date_to_string : ℕ → List ℕ) where
  abbrev pub set_date : List ℕ → Element → Attributes → Result Error Attributes
  set_date name e = set_read (λ (t : ℕ). set_string name (date_to_string t)) (to_long e)

  unfoldable pub store_generic : List ℕ → Element → Attributes → Result Error Attributes
  store_generic name value = store_plain name value (λ result.
      if type_of value == type_date_time
      then set_date name value result
      else if type_of value == type_structure
      then set_name_value name (get_child tag_name_value value) result
      else ok result)

  -- A typed element with a tag that has no name here.
  abbrev pub store_unmapped : Element → Attributes → Result Error Attributes
  store_unmapped e =
      let name = generic_name_for_tag (tag_of e) in
      store_plain name e (λ result.
        if type_of e == type_date_time
        then set_read (set_long name) (to_long e) result
        else if type_of e == type_structure
        then ok (set_string name (codes "<STRUCTURE>") result)
        else ok result)

  unfoldable pub parse_v2_typed_attribute : Element → Attributes → Result Error Attributes
  parse_v2_typed_attribute e result =
      let t = tag_of e in
      if t == tag_cryptographic_algorithm
      then read_algorithm e result
      else if t == tag_cryptographic_length
      then read_length e result
      else if t == tag_cryptographic_usage_mask
      then read_mask e result
      else if t == tag_state
      then read_state e result
      else if t == tag_name
      then set_child (λ child. set_read (set_string attr_name) (to_string child))
          (get_child tag_name_value e) result
      else if t == tag_object_group
      then set_read (set_string attr_group) (to_string e) result
      else if t == tag_unique_identifier
      then set_read (set_string attr_unique_identifier) (to_string e) result
      else if t == tag_activation_date
      then set_date attr_activation_date e result
      else if t == tag_deactivation_date
      then set_date attr_deactivation_date e result
      else if t == tag_process_start_date
      then set_date attr_process_start_date e result
      else if t == tag_protect_stop_date
      then set_date attr_protect_stop_date e result
      else store_unmapped e result

  -- An attribute of the 1.x form with the name, and a value or none.
  unfoldable pub parse_named : List ℕ → Option Element → Attributes → Result Error Attributes
  parse_named raw_name value =
      if same_text raw_name (codes "Cryptographic Algorithm")
      then set_child read_algorithm value
      else if same_text raw_name (codes "Cryptographic Length")
      then set_child read_length value
      else if same_text raw_name (codes "Cryptographic Usage Mask")
      then set_child read_mask value
      else if same_text raw_name (codes "State")
      then set_child read_state value
      else set_child
          (store_generic
            (if same_text raw_name (codes "UniqueID") then attr_unique_identifier else raw_name))
          value

  abbrev pub parse_v1_attribute :
      Option Element → Option Element → Attributes → Result Error Attributes
  parse_v1_attribute none value result = ok result
  parse_v1_attribute (some name) value result = do
    raw_name ← to_string name
    parse_named raw_name value result

  unfoldable pub parse_attribute : Element → Attributes → Result Error Attributes
  parse_attribute e result =
      if tag_of e == tag_attribute
      then parse_v1_attribute (get_child tag_attribute_name e) (get_child tag_attribute_value e)
          result
      else parse_v2_typed_attribute e result

  abbrev pub parse_loop : List Element → Attributes → Result Error Attributes
  parse_loop [] result = ok result
  parse_loop (e ∷ attributes) result = parse_attribute e result >>= parse_loop attributes

  unfoldable pub parse : List Element → Result Error Attributes
  parse attributes = parse_loop attributes no_attributes
